-- ===== src/Config/Paths.antt =====
-- What a property of common/config.py reads after a change of the file.
use topicstreams.Config.{
  Yaml, null, flag, number, text, sequence, mapping, Entries, no_entries, entry, get_key,
  or_default, step, get_value, Setting, read,
}
use topicstreams.Base.{
  String, ◌≡◌, refl, ap, ◌∙◌, inl, inr, Bool, true, false, List, [], ◌∷◌, arith, eq_iff, str_eq,
  if◌then◌else◌, Bool-cases, str_eq_self, keys,
}

-- The file with a value at a path: mappings are made on the way where there are none.
unfoldable pub set_key : String → Yaml → Entries → Entries
set_key key v no_entries = entry key v no_entries
set_key key v (entry k value rest) =
    let others = set_key key v rest in if str_eq k key then entry k v rest else entry k value others

abbrev pub entries_of : Yaml → Entries
entries_of (mapping es) = es
entries_of null = no_entries
entries_of (flag b) = no_entries
entries_of (number n) = no_entries
entries_of (text s) = no_entries
entries_of (sequence s) = no_entries

unfoldable pub set_value : List String → Yaml → Yaml → Yaml
set_value [] v config = v
set_value (key ∷ keys) v config =
    mapping (set_key key (set_value keys v (step key config)) (entries_of config))

get_key-set_key :
    (k j : String) (v : Yaml) (entries : Entries)
    → get_key j (set_key k v entries) ≡ (if str_eq k j then v else get_key j entries)
unfolding get_key set_key
get_key-set_key k j v no_entries = refl
get_key-set_key k j v (entry i w rest) = elim (Bool-cases (str_eq i k)) [
  | inl same ↦
      let name : str_eq i j ≡ str_eq k j = ap (λ n. str_eq n j) ((eq_iff i k).0 same) in
      rw same (rw name (ground arith))
  | inr other ↦
      rw other
        (ground (arith, get_key-set_key k j v rest, eq_iff i j, eq_iff k j, eq_iff i k, other))
]

get_key-entries_of : (j : String) (config : Yaml) → get_key j (entries_of config) ≡ step j config
unfolding get_key
get_key-entries_of j (mapping es) = refl
get_key-entries_of j null = refl
get_key-entries_of j (flag b) = refl
get_key-entries_of j (number n) = refl
get_key-entries_of j (text s) = refl
get_key-entries_of j (sequence s) = refl

get_value-set_value :
    (default v : Yaml) (keys : List String) (config : Yaml)
    → get_value default keys (set_value keys v config) ≡ or_default default v
unfolding get_value set_value
get_value-set_value default v [] config = refl
get_value-set_value default v (key ∷ keys) config =
    let below : Yaml = set_value keys v (step key config) in
    ap (get_value default keys)
      (get_key-set_key key key below (entries_of config) ∙ rw (str_eq_self key) refl)
    ∙ get_value-set_value default v keys (step key config)

-- Neither path leads through the other's end.
unfoldable pub are_apart : List String → List String → Bool
are_apart [] q = false
are_apart (k ∷ p) [] = false
are_apart (k ∷ p) (j ∷ q) = if str_eq k j then are_apart p q else true

get_value-set_value_apart :
    (default v : Yaml) (p q : List String) (config : Yaml)
    → are_apart p q ≡ true
    → get_value default q (set_value p v config) ≡ get_value default q config
unfolding get_value set_value are_apart
get_value-set_value_apart default v [] q config h = absurd (cc)
get_value-set_value_apart default v (k ∷ p) [] config h = absurd (cc)
get_value-set_value_apart default v (k ∷ p) (j ∷ q) config h = elim (Bool-cases (str_eq k j)) [
  | inl same ↦
      let below : Yaml = set_value p v (step k config) in
      let written : get_key j (set_key k below (entries_of config)) ≡ below =
        get_key-set_key k j below (entries_of config) ∙ rw same refl in
      let further : are_apart p q ≡ true = ground (arith, h, same) in
      ap (get_value default q) written
      ∙ get_value-set_value_apart default v p q (step k config) further
      ∙ ap (λ n. get_value default q (step n config)) ((eq_iff k j).0 same)
  | inr other ↦ ap (get_value default q) (
      get_key-set_key k j (set_value p v (step k config)) (entries_of config)
      ∙ rw other (get_key-entries_of j config))
]

-- Writing a value at the path of a property makes the property read it, or its default if the value is
-- null, and leaves what a property with a path apart from it reads.
read-set_value :
    (s t : Setting) (v config : Yaml)
    → are_apart s.path t.path ≡ true
    → (read s (set_value s.path v config) ≡ or_default s.default v)
      × (read t (set_value s.path v config) ≡ read t config)
unfolding read
read-set_value s t v config apart = (
  get_value-set_value s.default v s.path config,
  get_value-set_value_apart t.default v s.path t.path config apart,
)
