-- ===== src/Memory/Values.antt =====
-- The values of JavaScript that come from a JSON file, and how run-store.ts reads them, lines 201 to
-- 237 and 557 to 580.
use code_kit_ultra.Base.{
  String, ℕ, ◌≡◌, refl, ap, List, [], ◌∷◌, Option, none, some, Bool, true, false, not, ◌&&◌, ◌==◌,
  same, includes, if◌then◌else◌, trim, sym, if_same,
}

-- Numbers that are stored are whole. A property that is undefined is left out of its object.
mutual
  pub data Value : Type 0 where
    null : Value
    flag : Bool → Value
    number : ℕ → Value
    string : String → Value
    array : Elements → Value
    object : Properties → Value

  pub data Elements : Type 0 where
    empty_array : Elements
    element : Value → Elements → Elements

  pub data Properties : Type 0 where
    empty_object : Properties
    property : String → Value → Properties → Properties

abbrev pub items_of : List Value → Elements
items_of [] = empty_array
items_of (v ∷ vs) = element v (items_of vs)

abbrev pub list_of : Elements → List Value
list_of empty_array = []
list_of (element v vs) = v ∷ list_of vs

pub list_of-items_of : (vs : List Value) → list_of (items_of vs) ≡ vs
list_of-items_of [] = refl
list_of-items_of (v ∷ vs) = ap (λ us. v ∷ us) (list_of-items_of vs)

abbrev pub get_field : String → Properties → Option Value
get_field k empty_object = none
get_field k (property j v fs) = if same j k then some v else get_field k fs

-- `value[k]`
abbrev pub get : String → Value → Option Value
get k (object fs) = get_field k fs
get k v = none

-- `{ k: v, ...fs }`, where `v` may be undefined
abbrev pub with_field : String → Option Value → Properties → Properties
with_field k none fs = fs
with_field k (some v) fs = property k v fs

pub get-with_field :
    (k j : String) (o : Option Value) (fs : Properties)
    → get_field k (with_field j o fs)
      ≡ (if same j k then elim o [ none ↦ get_field k fs | some v ↦ some v ] else get_field k fs)
get-with_field k j none fs = sym (if_same (same j k) (get_field k fs))
get-with_field k j (some v) fs = refl

-- `Boolean(value)`
abbrev pub is_truthy : Option Value → Bool
is_truthy none = false
is_truthy (some null) = false
is_truthy (some (flag b)) = b
is_truthy (some (number n)) = not (n == 0)
is_truthy (some (string s)) = not (same s "")
is_truthy (some (array vs)) = true
is_truthy (some (object fs)) = true

-- `typeof value === "string"`
abbrev pub is_text : Option Value → Bool
is_text (some (string s)) = true
is_text o = false

-- `typeof value === "string" || typeof value === "undefined"`
abbrev pub is_text_or_missing : Option Value → Bool
is_text_or_missing none = true
is_text_or_missing o = is_text o

-- `value && typeof value === "object"`
abbrev pub is_object : Value → Bool
is_object (array vs) = true
is_object (object fs) = true
is_object v = false

-- The texts of a list.
abbrev pub texts_of : List Value → List String
texts_of [] = []
texts_of (string s ∷ vs) = s ∷ texts_of vs
texts_of (v ∷ vs) = texts_of vs

-- A text that is not blank, trimmed.
unfoldable pub text_of : Option Value → Option String
text_of (some (string s)) = if same (trim s) "" then none else some (trim s)
text_of o = none

unfoldable pub extract_string_property : Value → List String → Option String
extract_string_property source [] = none
extract_string_property source (k ∷ ks) = elim (text_of (get k source)) [
  | some s ↦ some s
  | none ↦ extract_string_property source ks
]

unfoldable pub object_of : Option Value → Option Value
object_of (some (object fs)) = some (object fs)
object_of o = none

unfoldable pub extract_object_property : Value → List String → Option Value
extract_object_property source [] = none
extract_object_property source (k ∷ ks) = elim (object_of (get k source)) [
  | some v ↦ some v
  | none ↦ extract_object_property source ks
]

unfoldable pub is_mode : String → Bool
is_mode s = includes s ("turbo" ∷ "builder" ∷ "pro" ∷ "expert" ∷ [])

-- The names of the properties of an entry that are texts or undefined.
abbrev pub optional_names : List String
optional_names =
    "summary" ∷ "idea" ∷ "mode" ∷ "currentPhase" ∷ "orgId" ∷ "workspaceId" ∷ "projectId" ∷ "actorId"
    ∷ "actorType" ∷ "correlationId" ∷ "authMode" ∷ []

abbrev pub are_optional : List String → Value → Bool
are_optional [] v = true
are_optional (k ∷ ks) v = is_text_or_missing (get k v) && are_optional ks v

unfoldable pub is_project_memory_run_entry : Value → Bool
is_project_memory_run_entry v =
    is_object v
    && is_text (get "recordedAt" v)
    && is_text (get "artifactDirectory" v)
    && is_text (get "artifactReportPath" v)
    && are_optional optional_names v
