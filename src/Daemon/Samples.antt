-- ===== src/Daemon/Samples.antt =====
-- A host for the tests: the machine of the tests of the volume, texts that are their own keys in
-- lower case, and floats that are counted like numbers.
use neural_file_system.Prelude.{
  ◌+◌, ◌-◌, ◌*◌, max, ◌≡◌, ◌∙◌, ap, refl, false, Option, none, some, Bytes, List, [], ◌∷◌, length,
  head?, ltb, leb,
}
use neural_file_system.FileEntry.{FileEntry}
use neural_file_system.Host.{Host, Floats, Disk}
use neural_file_system.Classifier.{Classifier}
use neural_file_system.Platform.{Bincode}
use neural_file_system.Filesystem.Samples.{
  frame, unframe, unframe-frame, length-frame, pack_entries, unpack_entries, unpack-pack_entries,
  machine,
}

unfoldable pub pack_entry : FileEntry → List Bytes
pack_entry e =
    e.path
    ∷ e.file_name
    ∷ e.extension
    ∷ e.parent
    ∷ (e.size ∷ e.modified ∷ e.depth ∷ e.freq ∷ e.last_open ∷ [])
    ∷ []

unfoldable pub unpack_entry : List Bytes → Option FileEntry
unpack_entry (path ∷ name ∷ extension ∷ parent ∷ (a ∷ b ∷ c ∷ d ∷ f ∷ []) ∷ []) = some (record {
  path = path;
  file_name = name;
  extension = extension;
  parent = parent;
  size = a;
  modified = b;
  depth = c;
  freq = d;
  last_open = f;
})
unpack_entry _ = none

pub unpack-pack_entry : (e : FileEntry) → unpack_entry (pack_entry e) ≡ some e
unfolding pack_entry unpack_entry
unpack-pack_entry e = refl

unfoldable pub entry_code : Bincode FileEntry
unfolding pack_entry unpack_entry frame unframe
entry_code = record {
  serialize = λ e. frame (pack_entry e);
  deserialize = λ b. unpack_entry (unframe (length b) b);
  deserialize-serialize = λ e.
      ap unpack_entry
        (unframe-frame (length (frame (pack_entry e))) (pack_entry e) (length-frame (pack_entry e)))
      ∙ unpack-pack_entry e;
}

abbrev pub floats : Floats
floats = record {
  of_nat = λ n. n;
  ratio = λ a b. a;
  infinity = 0;
  sub = λ a b. a - b;
  larger = λ a b. max a b;
  neg = λ a. a;
  exp = λ a. a;
  ln = λ a. a;
  pow = λ a b. a;
  inside_unit = λ a. a;
  add = λ a b. a + b;
  mul = λ a b. a * b;
  div = λ a b. a;
  at_most = λ a b. leb a b;
  greater = λ a b. ltb b a;
  print = λ x. x ∷ [];
  parse = head?;
  fixed = λ n x. x ∷ [];
  parse-print = λ x l h. refl;
}

abbrev pub host : Host
host = record {
  volume = machine;
  entry_code = entry_code;
  floats = floats;
  linear = record {
    Weights = Unit;
    empty = tt;
    logits = λ x w. [];
    zeros = λ n m. tt;
    epoch = λ r d x e w. w;
    descend = λ r x d w. w;
  };
  paths = record {
    file_name = λ p. some p;
    extension = λ p. none;
    parent = λ p. none;
    components = λ p. 1;
  };
  hash = λ b. length b;
  lower = λ b. b;
  trim = λ b. b;
  b64_encode = λ b. b;
  b64_decode = λ b. some b;
  decode-encode = λ b. refl;
}

-- No real file.
abbrev pub disk : Disk
disk = record {
  walk = λ root. [];
  metadata = λ path. none;
  is_file = λ path. false;
  is_dir = λ path. false;
  canonicalize = λ path. none;
  watch = λ path. none;
}

pack_model : Classifier host → List Bytes
pack_model c = (c.updates ∷ c.version ∷ []) ∷ c.idf ∷ frame c.classes ∷ pack_entries c.vocab

unpack_model : List Bytes → Option (Classifier host)
unpack_model ((updates ∷ version ∷ []) ∷ idf ∷ classes ∷ vocab) = some (record {
  vocab = unpack_entries vocab;
  idf = idf;
  classes = unframe (length classes) classes;
  weights = tt;
  updates = updates;
  version = version;
})
unpack_model _ = none

unpack-pack_model : (c : Classifier host) → unpack_model (pack_model c) ≡ some c
unfolding pack_model unpack_model
unpack-pack_model c =
    ap
      (λ p.
        some
          (record c { vocab = p; classes = unframe (length (frame c.classes)) (frame c.classes) }))
      (unpack-pack_entries c.vocab)
    ∙ ap (λ p. some (record c { classes = p }))
        (unframe-frame (length (frame c.classes)) c.classes (length-frame c.classes))

pub model_code : Bincode (Classifier host)
model_code = record {
  serialize = λ c. frame (pack_model c);
  deserialize = λ b. unpack_model (unframe (length b) b);
  deserialize-serialize = λ c.
      ap unpack_model
        (unframe-frame (length (frame (pack_model c))) (pack_model c) (length-frame (pack_model c)))
      ∙ unpack-pack_model c;
}
