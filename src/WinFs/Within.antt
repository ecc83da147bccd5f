-- ===== src/WinFs/Within.antt =====
-- crates/neuralfs-daemon/src/winfsphost.rs: the keys below another, and how a rename maps them.
use mathlib.Core.List.{append_assoc, append-nil}
use neural_file_system.Prelude.{
  ℕ, ◌≡◌, ◌≢◌, refl, sym, ap, ◌∙◌, Bool, true, [], ◌∷◌, ◌++◌, Bytes, length, drop, drop-append,
  length-append, bytes_discrete, arith, if_neg, if_pos, starts_with, ◌==◌, ==_iff,
}
use neural_file_system.WinFs.{separator}
use neural_file_system.WinFs.Names.{is_within, moved_key}

starts_with-append : (p q r : Bytes) → starts_with (p ++ q) (p ++ r) ≡ starts_with q r
unfolding starts_with
starts_with-append [] q r = refl
starts_with-append (c ∷ p) q r = ground (arith, starts_with-append p q r, ==_iff c c)

starts_with_split : (p s : Bytes) → starts_with p s ≡ true → s ≡ p ++ drop (length p) s
unfolding starts_with
starts_with_split [] s h = refl
starts_with_split (c ∷ p) [] h = ground arith
starts_with_split (c ∷ p) (d ∷ s) h = ground (arith, starts_with_split p s, ==_iff c d)

longer : (p : Bytes) (c : ℕ) (r : Bytes) → p ++ c ∷ r ≢ p
longer p c r h = absurd (omega (arith, ap length h, length-append p (c ∷ r)))

-- What follows the name of a directory in the names below it, or nothing.
abbrev pub opens : Bytes → Bool
opens [] = true
opens (c ∷ r) = separator == c

pub is_within-append : (from r : Bytes) → is_within from (from ++ r) ≡ opens r
unfolding is_within starts_with
is_within-append from [] =
    if_pos {C = Bool} (bytes_discrete (from ++ []) from) (append-nil from) _ _
is_within-append from (c ∷ r) =
    if_neg {C = Bool} (bytes_discrete (from ++ c ∷ r) from) (longer from c r) _ _
    ∙ starts_with-append from (separator ∷ []) (c ∷ r)
    ∙ ground arith

-- A key within another is that one with a rest.
pub within_split : (from k : Bytes) → is_within from k ≡ true → k ≡ from ++ drop (length from) k
unfolding is_within
within_split from k h = elim (bytes_discrete k from) [
  | yes p ↦ rw p (
      sym (append-nil from)
      ∙ ap (λ r. from ++ r)
          (sym (drop-append (length from) from [] refl)
            ∙ ap (drop (length from)) (append-nil from)))
  | no p ↦
      let s : starts_with (from ++ separator ∷ []) k ≡ true =
        sym (if_neg {C = Bool} (bytes_discrete k from) p _ _) ∙ h in
      let rest = drop (length (from ++ separator ∷ [])) k in
      let e : k ≡ from ++ separator ∷ rest =
        starts_with_split (from ++ separator ∷ []) k s ∙ append_assoc from (separator ∷ []) rest in
      e
      ∙ ap (λ r. from ++ r)
          (sym (ap (drop (length from)) e ∙ drop-append (length from) from (separator ∷ rest) refl))
]

pub moved_key-append : (from to r : Bytes) → moved_key from to (from ++ r) ≡ to ++ r
unfolding moved_key
moved_key-append from to r = ap (λ d. to ++ d) (drop-append (length from) from r refl)

-- A key that moves comes to stand within the new name, and may move back.
pub moved_within :
    (from to k : Bytes) → is_within from k ≡ true → is_within to (moved_key from to k) ≡ true
unfolding moved_key
moved_within from to k h =
    let e = within_split from k h in
    is_within-append to (drop (length from) k)
    ∙ sym (is_within-append from (drop (length from) k))
    ∙ ap (is_within from) (sym e)
    ∙ h

pub moved_back :
    (from to k : Bytes) → is_within from k ≡ true → moved_key to from (moved_key from to k) ≡ k
unfolding moved_key
moved_back from to k h =
    moved_key-append to from (drop (length from) k) ∙ sym (within_split from k h)

pub moved_injective :
    (from to j k : Bytes)
    → is_within from j ≡ true
    → is_within from k ≡ true
    → moved_key from to j ≡ moved_key from to k
    → j ≡ k
moved_injective from to j k hj hk e =
    sym (moved_back from to j hj) ∙ ap (moved_key to from) e ∙ moved_back from to k hk

pub is_within_self : (k : Bytes) → is_within k k ≡ true
is_within_self k = ap (is_within k) (sym (append-nil k)) ∙ is_within-append k []
