-- ===== src/BlockStore/Tests.antt =====
-- The theorems on the block store, applied to a small store.
use neural_file_system.Prelude.{
  ◌+◌, ◌*◌, ◌^◌, ◌<◌, ◌≡◌, refl, sym, ◌∙◌, some, [], ◌∷◌, Bytes, length, replicate,
  length-replicate, bytes_discrete, erase, ok, arith,
}
use neural_file_system.HashLink.{Linked, list_linked}
use neural_file_system.Sled.{list_sled}
use neural_file_system.Blake3.{Blake3, Hash, CollisionFree}
use neural_file_system.BlockStore.{BlockStore, open_store, put, get, physical_bytes, block_count}
use neural_file_system.BlockStore.Codec.{enc, dec, from_le_bytes, to_le_bytes}
use neural_file_system.BlockStore.Compact.{CompactStats, compact}
use neural_file_system.BlockStore.Contents.{
  IsSound, stored, stored_absent, answer, open_store-IsSound,
}
use neural_file_system.BlockStore.Reads.{IsTrusted, IsSound-IsTrusted, get_lem, get_verified}
use neural_file_system.BlockStore.Writes.{Fits, added, put-IsSound, stored-put, get-put}
use neural_file_system.BlockStore.Collect.{
  surviving, compact_succeeds, compact-IsSound, stored-compact,
}

abbrev linked : Linked bytes_discrete Bytes
linked = list_linked bytes_discrete

-- A digest that tells blocks apart by their lengths.
abbrev by_length : Blake3
by_length = record {
  digest = λ b. replicate 32 (length b);
  length-digest = λ b. length-replicate 32 (length b);
}

abbrev block : Bytes
block = 1 ∷ 2 ∷ 3 ∷ []

abbrev empty_store : BlockStore list_sled linked
empty_store = open_store list_sled linked [] list_sled.new 100

empty-IsSound : IsSound by_length empty_store
empty-IsSound = open_store-IsSound by_length 100

empty-Fits : Fits block empty_store
unfolding open_store
empty-Fits = omega arith

one : BlockStore list_sled linked
one = (put by_length block empty_store).1

one-IsSound : IsSound by_length one
unfolding one
one-IsSound = put-IsSound by_length block empty_store empty-IsSound empty-Fits

one_fits : physical_bytes one + 4 * block_count one < 2 ^ 64
unfolding one put open_store physical_bytes block_count list_sled dec enc erase from_le_bytes
    to_le_bytes
one_fits = omega arith

abbrev address : Hash
address = by_length.digest block

-- The only content that is met.
abbrev Met : Bytes → Type 0
Met b = b ≡ block

one_alone : CollisionFree by_length Met
one_alone a b p q e = p ∙ sym q

nothing_stored : (x : Bytes) → stored by_length address empty_store ≡ some x → Met x
unfolding open_store
nothing_stored x e =
    absurd (ground (arith, stored_absent by_length address empty_store (list_sled.get-new address)))

other : Bytes
other = 9 ∷ []

one-Fits : Fits other one
unfolding one put open_store other to_le_bytes list_sled
one-Fits = omega arith

trusted : IsTrusted by_length one
trusted = IsSound-IsTrusted by_length one one-IsSound

stored-compact_example :
    stored by_length address (compact (address ∷ []) one).1
    ≡ surviving by_length (address ∷ []) one address
stored-compact_example = stored-compact by_length (address ∷ []) one address one-IsSound one_fits

compact_succeeds_example : (st : CompactStats) × ((compact (address ∷ []) one).0 ≡ ok st)
compact_succeeds_example = compact_succeeds by_length (address ∷ []) one one-IsSound one_fits

compact-IsSound_example : IsSound by_length (compact (address ∷ []) one).1
compact-IsSound_example = compact-IsSound by_length (address ∷ []) one one-IsSound one_fits

get-put_example :
    (get by_length (put by_length block empty_store).0 (put by_length block empty_store).1).0
    ≡ ok block
get-put_example =
    get-put by_length Met block empty_store one_alone empty-IsSound empty-Fits refl nothing_stored

read_one : (get by_length address one).0 ≡ ok block
unfolding one put
read_one = get-put_example

get_verified_example : by_length.digest block ≡ address
get_verified_example = get_verified by_length address one block trusted read_one

get_lem_example : (get by_length address one).0 ≡ answer (stored by_length address one)
get_lem_example = get_lem by_length address one one-IsSound

stored-put_example :
    stored by_length address (put by_length other one).1
    ≡ added by_length other address (stored by_length address one)
stored-put_example = stored-put by_length other one address one-IsSound one-Fits
