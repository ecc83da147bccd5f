-- ===== src/Daemon/Gate.antt =====
-- `fs_gate` of crates/neuralfs-daemon/src/state.rs, and which requests of ipc.rs take it: how the
-- work of requests that are handled at the same time may begin and end. The lock is
-- `tokio::sync::RwLock`, as an interface. A request waits for its side of the gate, works on the
-- volume while it has it, and gives it back at the end; the handler may also end before it works.
mod Tests
use neural_file_system.Prelude.{
  ℕ, ◌+◌, ◌-◌, ◌≤◌, ◌≡◌, ◌⊎◌, inl, inr, refl, subst, Bool, true, false, Option, some, List, [], ◌∷◌,
  ◌++◌, if◌then◌else◌, arith,
}
use neural_file_system.Protocol.{Request, fs_write, fs_gc}

-- How many guards of each side are out. A side that cannot be given now gives none, and the caller
-- waits; the drop of a guard gives its side back.
pub record RwLock : Type 1 where
  pub Lock : Type 0
  pub new : Lock
  pub readers : Lock → ℕ
  pub writers : Lock → ℕ
  pub read : Lock → Option Lock
  pub write : Lock → Option Lock
  pub drop_reader : Lock → Lock
  pub drop_writer : Lock → Lock
  pub new_lem : (readers new ≡ 0) × (writers new ≡ 0)
  pub read_lem :
      (l k : Lock)
      → read l ≡ some k
      → (writers l ≡ 0) × (readers k ≡ readers l + 1) × (writers k ≡ 0)
  pub write_lem :
      (l k : Lock)
      → write l ≡ some k
      → (readers l ≡ 0) × (writers l ≡ 0) × (readers k ≡ 0) × (writers k ≡ 1)
  pub drop_reader_lem :
      (l : Lock) → (readers (drop_reader l) ≡ readers l - 1) × (writers (drop_reader l) ≡ writers l)
  pub drop_writer_lem :
      (l : Lock) → (readers (drop_writer l) ≡ readers l) × (writers (drop_writer l) ≡ writers l - 1)

pub data GateUse : Type 0 where
  read_side write_side ungated : GateUse

unfoldable pub gate_use : Request → GateUse
gate_use (fs_write path data_b64) = read_side
gate_use fs_gc = write_side
gate_use _ = ungated

-- The requests that are counted below.
unfoldable pub is_collection : Request → Bool
is_collection fs_gc = true
is_collection _ = false

unfoldable pub is_file_write : Request → Bool
is_file_write (fs_write path data_b64) = true
is_file_write _ = false

unfoldable pub count {ℓ} : {A : Type ℓ} → (A → Bool) → List A → ℕ
count f [] = 0
count f (x ∷ xs) = (if f x then 1 else 0) + count f xs

count-middle {ℓ} :
    {A : Type ℓ} (f : A → Bool) (xs : List A) (x : A) (ys : List A)
    → count f (xs ++ x ∷ ys) ≡ (if f x then 1 else 0) + count f (xs ++ ys)
unfolding count
count-middle f [] x ys = refl
count-middle f (y ∷ xs) x ys = omega (arith, count-middle f xs x ys)

count_le {ℓ} :
    {A : Type ℓ} (f g : A → Bool) (xs : List A)
    → ((x : A) → f x ≡ true → g x ≡ true)
    → count f xs ≤ count g xs
unfolding count
count_le f g [] h = omega arith
count_le f g (x ∷ xs) h = ground (arith, h x, count_le f g xs h)

abbrev reads_gate : Request → Bool
reads_gate req = elim (gate_use req) [ read_side ↦ true | write_side ↦ false | ungated ↦ false ]

abbrev writes_gate : Request → Bool
writes_gate req = elim (gate_use req) [ read_side ↦ false | write_side ↦ true | ungated ↦ false ]

collection_writes : (req : Request) → is_collection req ≡ true → writes_gate req ≡ true
unfolding is_collection gate_use
collection_writes fs_gc h = refl
collection_writes _ h = absurd (ground arith)

file_write_reads : (req : Request) → is_file_write req ≡ true → reads_gate req ≡ true
unfolding is_file_write gate_use
file_write_reads (fs_write path data_b64) h = refl
file_write_reads _ h = absurd (ground arith)

module _ (K : RwLock) where
  unfoldable pub take_gate : GateUse → K.Lock → Option K.Lock
  take_gate read_side l = K.read l
  take_gate write_side l = K.write l
  take_gate ungated l = some l

  unfoldable pub drop_gate : GateUse → K.Lock → K.Lock
  drop_gate read_side l = K.drop_reader l
  drop_gate write_side l = K.drop_writer l
  drop_gate ungated l = l

  -- The gate, and the requests between the begin and the end of their work.
  pub record Running : Type 0 where
    pub gate : K.Lock
    pub working : List Request

  pub data Step : Running → Running → Type 0 where
    begins :
        (r : Running) (req : Request) (gate : K.Lock)
        → take_gate (gate_use req) r.gate ≡ some gate
        → Step r (record { gate = gate; working = req ∷ r.working })
    ends :
        (r : Running) (before : List Request) (req : Request) (after : List Request)
        → r.working ≡ before ++ req ∷ after
        → Step r (record { gate = drop_gate (gate_use req) r.gate; working = before ++ after })

  pub data Reachable : Running → Type 0 where
    start : Reachable (record { gate = K.new; working = [] })
    next : {r t : Running} → Reachable r → Step r t → Reachable t

  -- The guards that are out are those of the requests at work.
  record IsHeld (gate : K.Lock) (working : List Request) : Type 0 where
    readers_lem : K.readers gate ≡ count reads_gate working
    writers_lem : K.writers gate ≡ count writes_gate working
    single : K.writers gate ≤ 1
    exclusive : (K.writers gate ≡ 0) ⊎ (K.readers gate ≡ 0)

  begins-IsHeld :
      (req : Request) (use_ : GateUse) (l gate : K.Lock) (working : List Request)
      → gate_use req ≡ use_
      → take_gate use_ l ≡ some gate
      → IsHeld l working
      → IsHeld gate (req ∷ working)
  unfolding take_gate count
  begins-IsHeld req read_side l gate working u h w =
      let (free, one_more, still) = K.read_lem l gate h in
      record {
        readers_lem = ground (arith, u, w.readers_lem);
        writers_lem = ground (arith, u, w.writers_lem);
        single = omega arith;
        exclusive = inl still;
      }
  begins-IsHeld req write_side l gate working u h w =
      let (no_readers, no_writers, none_now, one) = K.write_lem l gate h in
      record {
        readers_lem = ground (arith, u, w.readers_lem);
        writers_lem = ground (arith, u, w.writers_lem);
        single = omega arith;
        exclusive = inr none_now;
      }
  begins-IsHeld req ungated l gate working u h w = record {
    readers_lem = ground (arith, u, h, w.readers_lem);
    writers_lem = ground (arith, u, h, w.writers_lem);
    single = ground (arith, h, w.single);
    exclusive = ground (arith, h, w.exclusive);
  }

  -- A request that ends takes its own guard away.
  module _ (req : Request) (l k : K.Lock) (before after : List Request)
      (w : IsHeld l (before ++ req ∷ after)) where
    ends-kept :
        K.readers k + (if reads_gate req then 1 else 0) ≡ K.readers l
        → K.writers k + (if writes_gate req then 1 else 0) ≡ K.writers l
        → IsHeld k (before ++ after)
    ends-kept r h = record {
      readers_lem = omega (arith, r, count-middle reads_gate before req after, w.readers_lem);
      writers_lem = omega (arith, h, count-middle writes_gate before req after, w.writers_lem);
      single = omega (arith, h, w.single);
      exclusive = elim w.exclusive [
        | inl no_writer ↦ inl (omega (arith, h, no_writer))
        | inr no_reader ↦ inr (omega (arith, r, no_reader))
      ];
    }

  ends-IsHeld :
      (req : Request) (use_ : GateUse) (l : K.Lock) (before after : List Request)
      → gate_use req ≡ use_
      → IsHeld l (before ++ req ∷ after)
      → IsHeld (drop_gate use_ l) (before ++ after)
  unfolding drop_gate
  ends-IsHeld req read_side l before after u w =
      let dropped = K.drop_reader_lem l in
      let held = count-middle reads_gate before req after in
      ends-kept req l (K.drop_reader l) before after w
        (ground (arith, u, dropped, held, w.readers_lem)) (ground (arith, u, dropped))
  ends-IsHeld req write_side l before after u w =
      let dropped = K.drop_writer_lem l in
      let held = count-middle writes_gate before req after in
      ends-kept req l (K.drop_writer l) before after w (ground (arith, u, dropped))
        (ground (arith, u, dropped, held, w.writers_lem))
  ends-IsHeld req ungated l before after u w =
      ends-kept req l l before after w (ground (arith, u)) (ground (arith, u))

  Step-IsHeld : {r t : Running} → Step r t → IsHeld r.gate r.working → IsHeld t.gate t.working
  Step-IsHeld (begins r req gate h) w =
      begins-IsHeld req (gate_use req) r.gate gate r.working refl h w
  Step-IsHeld (ends r before req after e) w =
      ends-IsHeld req (gate_use req) r.gate before after refl (subst (IsHeld r.gate) e w)

  Reachable-IsHeld : {r : Running} → Reachable r → IsHeld r.gate r.working
  unfolding count
  Reachable-IsHeld start = record {
    readers_lem = K.new_lem.0;
    writers_lem = K.new_lem.1;
    single = omega (arith, K.new_lem.1);
    exclusive = inl K.new_lem.1;
  }
  Reachable-IsHeld (next q s) = Step-IsHeld s (Reachable-IsHeld q)

  -- In every state that requests lead to by beginning and ending their work, each with the side
  -- of the gate that its handler takes, over a lock that gives its read side only while no guard
  -- of the write side is out and its write side only while no guard is, at most one garbage
  -- collection is at work, and while one is, no request to write a file is.
  pub Reachable-IsExclusive :
      {r : Running}
      → Reachable r
      → (count is_collection r.working ≤ 1)
        × ((count is_collection r.working ≡ 0) ⊎ (count is_file_write r.working ≡ 0))
  Reachable-IsExclusive {r} q =
      let w = Reachable-IsHeld q in
      let collections = count_le is_collection writes_gate r.working collection_writes in
      let writes = count_le is_file_write reads_gate r.working file_write_reads in
      (
        omega (arith, collections, w.writers_lem, w.single),
        elim w.exclusive [
          | inl no_writer ↦ inl (omega (arith, no_writer, collections, w.writers_lem))
          | inr no_reader ↦ inr (omega (arith, no_reader, writes, w.readers_lem))
        ],
      )
