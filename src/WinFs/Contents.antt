-- ===== src/WinFs/Contents.antt =====
-- crates/neuralfs-daemon/src/winfsphost.rs: what a write leaves in a file, and what a read finds.
use neural_file_system.Prelude.{
  ℕ, zero, suc, ◌+◌, ◌-◌, ◌%◌, ◌^◌, ◌≤◌, ◌<◌, ◌≡◌, refl, ap, ◌∙◌, Bool, false, ◌&&◌, Option, some,
  [], ◌∷◌, ◌++◌, inl, inr, Bool-cases, Bytes, length, take, drop, replicate, length-append,
  length-take, length-drop, length-replicate, bytes_discrete, arith, ltb, leb, if◌then◌else◌, ite,
  if_pos, min, max,
}
use neural_file_system.WinFs.{Node, State, done, get_node, file_info, now_filetime}
use neural_file_system.WinFs.Calls.{
  resize, overwrite, write_start, write_end, too_far, write_node, write, read,
}
use neural_file_system.WinFs.Tree.{get_node-set_node}

-- The byte at a place, and a zero past the end.
abbrev pub byte_at : ℕ → Bytes → ℕ
byte_at i [] = 0
byte_at zero (b ∷ bs) = b
byte_at (suc i) (b ∷ bs) = byte_at i bs

byte_at-append :
    (i : ℕ) (a b : Bytes)
    → byte_at i (a ++ b) ≡ (if ltb i (length a) then byte_at i a else byte_at (i - length a) b)
byte_at-append i [] b = ground arith
byte_at-append zero (x ∷ a) b = ground arith
byte_at-append (suc i) (x ∷ a) b = ground (arith, byte_at-append i a b)

byte_at-take : (i n : ℕ) (a : Bytes) → byte_at i (take n a) ≡ (if ltb i n then byte_at i a else 0)
byte_at-take i zero a = ground arith
byte_at-take i (suc n) [] = ground arith
byte_at-take zero (suc n) (x ∷ a) = ground arith
byte_at-take (suc i) (suc n) (x ∷ a) = ground (arith, byte_at-take i n a)

byte_at-drop : (i n : ℕ) (a : Bytes) → byte_at i (drop n a) ≡ byte_at (n + i) a
byte_at-drop i zero a = ground arith
byte_at-drop i (suc n) [] = ground arith
byte_at-drop i (suc n) (x ∷ a) = ground (arith, byte_at-drop i n a)

byte_at-replicate : (i n : ℕ) → byte_at i (replicate n 0) ≡ 0
byte_at-replicate i zero = refl
byte_at-replicate zero (suc n) = refl
byte_at-replicate (suc i) (suc n) = byte_at-replicate i n

byte_at_past : (i : ℕ) (a : Bytes) → length a ≤ i → byte_at i a ≡ 0
byte_at_past i [] h = ground arith
byte_at_past zero (x ∷ a) h = absurd (omega arith)
byte_at_past (suc i) (x ∷ a) h = byte_at_past i a (omega arith)

-- Bytes are known by their number and by each of them.
bytes_ext : (a b : Bytes) → length a ≡ length b → ((i : ℕ) → byte_at i a ≡ byte_at i b) → a ≡ b
bytes_ext [] [] n h = refl
bytes_ext [] (y ∷ b) n h = absurd (omega arith)
bytes_ext (x ∷ a) [] n h = absurd (omega arith)
bytes_ext (x ∷ a) (y ∷ b) n h = ground (arith, h 0, bytes_ext a b (omega arith) (λ i. h (suc i)))

-- A longer file is filled with zeros, which a file has past its end anyway.
byte_at-resize :
    (i n : ℕ) (a : Bytes) → byte_at i (resize n a) ≡ (if ltb i n then byte_at i a else 0)
unfolding resize
byte_at-resize i n a = ground (
  arith,
  byte_at-append i (take n a) (replicate (n - length a) 0),
  byte_at-take i n a,
  byte_at-replicate (i - length (take n a)) (n - length a),
  byte_at_past i a,
  length-take n a,
)

length-resize : (n : ℕ) (a : Bytes) → length (resize n a) ≡ n
unfolding resize
length-resize n a = omega (
  arith,
  length-append (take n a) (replicate (n - length a) 0),
  length-take n a,
  length-replicate {A = ℕ} (n - length a) 0,
)

byte_at-overwrite :
    (i start : ℕ) (new a : Bytes)
    → start + length new ≤ length a
    → byte_at i (overwrite start new a)
      ≡ (if leb start i && ltb i (start + length new) then byte_at (i - start) new else byte_at i a)
unfolding overwrite
byte_at-overwrite i start new a h =
    let past : start ≤ i
        → start + length new + (i - start - length new) ≡ max i (start + length new) =
      λ le. omega arith in
    ground (
      arith,
      byte_at-append i (take start a) (new ++ drop (start + length new) a),
      byte_at-append (i - length (take start a)) new (drop (start + length new) a),
      byte_at-take i start a,
      byte_at-drop (i - start - length new) (start + length new) a,
      length-take start a,
    )

length-overwrite :
    (start : ℕ) (new a : Bytes)
    → start + length new ≤ length a
    → length (overwrite start new a) ≡ length a
unfolding overwrite
length-overwrite start new a h = omega (
  arith,
  length-append (take start a) (new ++ drop (start + length new) a),
  length-append new (drop (start + length new) a),
  length-take start a,
  length-drop (start + length new) a,
)

abbrev pub start_of : ℕ → Bool → Node → ℕ
start_of offset eof n = write_start offset eof n.bytes

abbrev pub end_of : Bytes → ℕ → Bool → Bool → Node → ℕ
end_of buffer offset eof constrained n =
    write_end (start_of offset eof n) (length buffer) constrained n.bytes

-- What a write makes of a node: it holds the bytes between two places, and no others change.
pub record Written (buffer : Bytes) (start end : ℕ) (n n' : Node) : Type 0 where
  pub bytes_lem :
      (i : ℕ)
      → byte_at i n'.bytes
        ≡ (if leb start i && ltb i end then byte_at (i - start) buffer else byte_at i n.bytes)
  pub length_lem : length n'.bytes ≡ max (length n.bytes) end

write_node-Written :
    (buffer : Bytes) (start end now : ℕ) (n : Node)
    → start ≤ end
    → end - start ≤ length buffer
    → Written buffer start end n (write_node buffer start end now n)
unfolding write_node
write_node-Written buffer start end now n le short =
    let new = take (end - start) buffer in
    let size : length new ≡ end - start = omega (arith, length-take (end - start) buffer) in
    elim (Bool-cases (ltb (length n.bytes) end)) [
      | inl grows ↦
          let fits : start + length new ≤ length (resize end n.bytes) =
            omega (arith, length-resize end n.bytes) in
          rw (grows, write_node)
            (record {
              bytes_lem = λ i. ground (
                arith,
                byte_at-overwrite i start new (resize end n.bytes) fits,
                byte_at-resize i end n.bytes,
                byte_at-take (i - start) (end - start) buffer,
                byte_at_past i n.bytes,
              );
              length_lem = ground (
                arith,
                length-overwrite start new (resize end n.bytes) fits,
                length-resize end n.bytes,
              );
            })
      | inr within ↦
          let fits : start + length new ≤ length n.bytes = ground arith in
          rw (within, write_node)
            (record {
              bytes_lem = λ i. ground (
                arith,
                byte_at-overwrite i start new n.bytes fits,
                byte_at-take (i - start) (end - start) buffer,
              );
              length_lem = ground (arith, length-overwrite start new n.bytes fits);
            })
    ]

write_bounds :
    (buffer : Bytes) (offset : ℕ) (eof constrained : Bool) (n : Node)
    → (constrained && leb (length n.bytes) (start_of offset eof n)) ≡ false
    → start_of offset eof n + length buffer < 2 ^ 63
    → (start_of offset eof n ≤ end_of buffer offset eof constrained n)
      × (end_of buffer offset eof constrained n - start_of offset eof n ≤ length buffer)
      × (too_far
            (start_of offset eof n)
            (length buffer)
            (end_of buffer offset eof constrained n)
            n.bytes
          ≡ false)
unfolding write_start write_end too_far
write_bounds buffer offset eof constrained n room h = (ground arith, ground arith, ground arith)

-- A `write` to a file that is there, with an end below 2^63, puts the bytes of the buffer between
-- its start and its end, which the flags give, and changes no other byte; the file is as long as
-- before or up to the end, the answer is the number of bytes, in 32 bits, and the new state of
-- the file, and no other file changes.
pub write_lem :
    (key buffer : Bytes) (offset : ℕ) (eof constrained : Bool) (clock : Option ℕ) (s : State)
    (n : Node)
    → get_node key s ≡ some n
    → start_of offset eof n + length buffer < 2 ^ 63
    → (n' : Node) × Written buffer
        (start_of offset eof n)
        (end_of buffer offset eof constrained n)
        n
        n'
      × ((write key buffer offset eof constrained clock s).1
          ≡ done (
            (end_of buffer offset eof constrained n - start_of offset eof n) % 2 ^ 32,
            file_info n',
          ))
      × ((k : Bytes)
          → get_node k (write key buffer offset eof constrained clock s).0
            ≡ ite (bytes_discrete key k) (some n') (get_node k s))
unfolding write
write_lem key buffer offset eof constrained clock s n h bound =
    let start = start_of offset eof n in
    let end = end_of buffer offset eof constrained n in
    elim (Bool-cases (constrained && leb (length n.bytes) start)) [
      | inl full ↦ (
        n,
        record {
          bytes_lem = λ i. unfold write_start write_end in ground arith;
          length_lem = unfold write_start write_end in ground arith;
        },
        rw (h, full, write) (unfold write_start write_end in ground arith),
        λ k. rw (h, full, write) (ground arith),
      )
      | inr room ↦
          let (le, short, near) = write_bounds buffer offset eof constrained n room bound in
          (
            write_node buffer start end (now_filetime clock) n,
            write_node-Written buffer start end (now_filetime clock) n le short,
            rw (h, room, near, write) refl,
            λ k. rw (h, room, near, write) (get_node-set_node k key _ s),
          )
    ]

-- A place holds the bytes, each of them.
range_eq :
    (buffer : Bytes) (start : ℕ) (n n' : Node)
    → Written buffer start (start + length buffer) n n'
    → take (min (start + length buffer) (length n'.bytes) - start) (drop start n'.bytes) ≡ buffer
range_eq buffer start n n' w =
    let long : start + length buffer ≤ length n'.bytes = ground (arith, w.length_lem) in
    let cut = take (min (start + length buffer) (length n'.bytes) - start) (drop start n'.bytes) in
    bytes_ext cut buffer
      (omega (
        arith,
        length-take (min (start + length buffer) (length n'.bytes) - start) (drop start n'.bytes),
        length-drop start n'.bytes,
      ))
      (λ i. ground (
        arith,
        byte_at-take i (min (start + length buffer) (length n'.bytes) - start)
            (drop start n'.bytes),
        byte_at-drop i start n'.bytes,
        w.bytes_lem (start + i),
        byte_at_past i buffer,
      ))

-- What an unconstrained `write` of at least one byte and fewer than 2^32 put into a file, with an
-- end below 2^63, is what `read` answers for that range, at the given offset or at the old end of
-- the file; and the write and the read both answer the number of the bytes, the write with the
-- new state of the file.
pub read-write :
    (key buffer : Bytes) (offset : ℕ) (eof : Bool) (clock : Option ℕ) (s : State) (n : Node)
    → get_node key s ≡ some n
    → start_of offset eof n + length buffer < 2 ^ 63
    → 0 < length buffer
    → length buffer < 2 ^ 32
    → ((n' : Node) × (get_node key (write key buffer offset eof false clock s).0 ≡ some n')
        × ((write key buffer offset eof false clock s).1 ≡ done (length buffer, file_info n')))
      × (read key
            (length buffer)
            (start_of offset eof n)
            (write key buffer offset eof false clock s).0
          ≡ done (length buffer, buffer))
unfolding read
read-write key buffer offset eof clock s n h bound some_bytes short =
    let start = start_of offset eof n in
    let (n', w, answer, at) = write_lem key buffer offset eof false clock s n h bound in
    let here : get_node key (write key buffer offset eof false clock s).0 ≡ some n' =
      at key ∙ if_pos {C = Option Node} (bytes_discrete key key) refl _ _ in
    let w' : Written buffer start (start + length buffer) n n' = unfold write_end in w in
    let inside : leb (length n'.bytes) start ≡ false = ground (arith, w'.length_lem) in
    let all : (end_of buffer offset eof false n - start) % 2 ^ 32 ≡ length buffer =
      unfold write_end in omega arith in
    let whole : (min (start + length buffer) (length n'.bytes) - start) % 2 ^ 32 ≡ length buffer =
      ground (arith, w'.length_lem) in
    (
      (n', here, answer ∙ ap (λ k. done (k, file_info n')) all),
      rw (here, inside, read) (ap (λ r. done r) (cc (whole, range_eq buffer start n n' w'))),
    )
