-- ===== src/Base/Maps.antt =====
-- JavaScript's `Map`, as an association list in the order of insertion.
use Prim.Native.String.{String}
use mathlib.Core.Bool.{false}
use Prim.Native.Nat.{suc}
use mathlib.Core.Path.{◌≡◌, refl, sym, ap, ◌∙◌, subst}
use mathlib.Core.Logic.{◌≢◌, inl, inr}
use mathlib.Core.List.{List, [], ◌∷◌}
use mathlib.Core.Option.{none, some}
use text.Mathlib.TextEquality.{eq_iff}
use text.Mathlib.TextPositions.{eq_refl}
use code_kit_ultra.Base.Tests.{if◌then◌else◌, if-split, Bool-cases}
use code_kit_ultra.Base.Lists.{All, All-zip, length}
use code_kit_ultra.Base.Text.{same, lookup}

pub ne→same : (k l : String) → k ≢ l → same k l ≡ false
ne→same k l h = elim (Bool-cases (same k l)) [ inl e ↦ absurd (h ((eq_iff k l).0 e)) | inr e ↦ e ]

pub same→ne : (k l : String) → same k l ≡ false → k ≢ l
same→ne k l h e = cc ((eq_iff k l).1 e)

module _ {ℓ} {V : Type ℓ} where
  -- `m.set(k, v)`: a key that is there keeps its place.
  abbrev pub insert : String → V → List (String × V) → List (String × V)
  insert k v [] = (k, v) ∷ []
  insert k v ((j, x) ∷ m) = if same j k then (j, v) ∷ m else (j, x) ∷ insert k v m

  -- `m.delete(k)`; no key stands twice.
  abbrev pub delete : String → List (String × V) → List (String × V)
  delete k [] = []
  delete k ((j, x) ∷ m) = let rest = delete k m in if same j k then rest else (j, x) ∷ rest

  pub lookup-delete_self : (k : String) (m : List (String × V)) → lookup k (delete k m) ≡ none
  lookup-delete_self k [] = refl
  lookup-delete_self k ((j, x) ∷ m) =
      if-split (λ n. lookup k n ≡ none) (same j k) (delete k m) ((j, x) ∷ delete k m)
        (λ _. lookup-delete_self k m) (λ e. rw e (lookup-delete_self k m))

  pub lookup-delete_other :
      (k l : String) (m : List (String × V)) → k ≢ l → lookup l (delete k m) ≡ lookup l m
  lookup-delete_other k l [] h = refl
  lookup-delete_other k l ((j, x) ∷ m) h =
      if-split (λ n. lookup l n ≡ lookup l ((j, x) ∷ m)) (same j k) (delete k m)
        ((j, x) ∷ delete k m)
        (λ e.
          let f = ne→same j l (λ g. h (sym ((eq_iff j k).0 e) ∙ g)) in
          rw f (lookup-delete_other k l m h))
        (λ _. ap (λ o. if same j l then some x else o) (lookup-delete_other k l m h))

  pub lookup-insert_self :
      (k : String) (v : V) (m : List (String × V)) → lookup k (insert k v m) ≡ some v
  lookup-insert_self k v [] = rw (eq_refl k) refl
  lookup-insert_self k v ((j, x) ∷ m) =
      if-split (λ m. lookup k m ≡ some v) (same j k) ((j, v) ∷ m) ((j, x) ∷ insert k v m)
        (λ e. rw e refl) (λ e. rw e (lookup-insert_self k v m))

  pub lookup-insert_other :
      (k l : String) (v : V) (m : List (String × V)) → k ≢ l → lookup l (insert k v m) ≡ lookup l m
  lookup-insert_other k l v [] h = rw (ne→same k l h) refl
  lookup-insert_other k l v ((j, x) ∷ m) h =
      if-split (λ n. lookup l n ≡ lookup l ((j, x) ∷ m)) (same j k) ((j, v) ∷ m)
        ((j, x) ∷ insert k v m)
        (λ e. let f = ne→same j l (λ g. h (sym ((eq_iff j k).0 e) ∙ g)) in rw f refl)
        (λ _. ap (λ o. if same j l then some x else o) (lookup-insert_other k l v m h))

  pub insert-All {κ} :
      (P : String × V → Type κ) (k : String) (v : V) (m : List (String × V))
      → ((j : String) → P (j, v))
      → All P m
      → All P (insert k v m)
  insert-All P k v [] p h = (p k, tt)
  insert-All P k v ((j, x) ∷ m) p h =
      if-split (All P) (same j k) ((j, v) ∷ m) ((j, x) ∷ insert k v m) (λ _. (p j, h.1))
        (λ _. (h.0, insert-All P k v m p h.1))

  -- No key stands twice.
  abbrev pub IsMap : List (String × V) → Type ℓ
  IsMap [] = Unit
  IsMap ((j, x) ∷ m) = (lookup j m ≡ none) × IsMap m

  pub insert-IsMap : (k : String) (v : V) (m : List (String × V)) → IsMap m → IsMap (insert k v m)
  insert-IsMap k v [] h = (refl, tt)
  insert-IsMap k v ((j, x) ∷ m) h =
      if-split IsMap (same j k) ((j, v) ∷ m) ((j, x) ∷ insert k v m) (λ _. (h.0, h.1))
        (λ e.
          (lookup-insert_other k j v m (λ f. same→ne j k e (sym f)) ∙ h.0, insert-IsMap k v m h.1))

  lookup-delete-none :
      (k l : String) (m : List (String × V)) → lookup l m ≡ none → lookup l (delete k m) ≡ none
  lookup-delete-none k l m h = elim (Bool-cases (same k l)) [
    | inl e ↦ rw ((eq_iff k l).0 e) (lookup-delete_self l m)
    | inr e ↦ lookup-delete_other k l m (same→ne k l e) ∙ h
  ]

  pub delete-IsMap : (k : String) (m : List (String × V)) → IsMap m → IsMap (delete k m)
  delete-IsMap k [] h = tt
  delete-IsMap k ((j, x) ∷ m) h =
      if-split IsMap (same j k) (delete k m) ((j, x) ∷ delete k m) (λ _. delete-IsMap k m h.1)
        (λ _. (lookup-delete-none k j m h.0, delete-IsMap k m h.1))

  pub delete_missing : (k : String) (m : List (String × V)) → lookup k m ≡ none → delete k m ≡ m
  delete_missing k [] h = refl
  delete_missing k ((j, x) ∷ m) h = elim (Bool-cases (same j k)) [
    | inl e ↦ cc (rw e at h)
    | inr e ↦ rw e (ap (λ n. (j, x) ∷ n) (delete_missing k m (rw e at h)))
  ]

  pub length-delete :
      (k : String) (v : V) (m : List (String × V))
      → IsMap m
      → lookup k m ≡ some v
      → suc (length (delete k m)) ≡ length m
  length-delete k v [] h e = cc
  length-delete k v ((j, x) ∷ m) h e = elim (Bool-cases (same j k)) [
    | inl f ↦ rw f (
        ap (λ n. suc (length n))
          (delete_missing k m (subst (λ i. lookup i m ≡ none) ((eq_iff j k).0 f) h.0)))
    | inr f ↦ rw f (ap suc (length-delete k v m h.1 (rw f at e)))
  ]

  pub missing-All : (k : String) (m : List (String × V)) → lookup k m ≡ none → All (λ e. e.0 ≢ k) m
  missing-All k [] h = tt
  missing-All k ((j, x) ∷ m) h = elim (Bool-cases (same j k)) [
    | inl f ↦ cc (rw f at h)
    | inr f ↦ (same→ne j k f, missing-All k m (rw f at h))
  ]

  -- Each entry of a map is the one that its key finds.
  pub IsMap-All : (m : List (String × V)) → IsMap m → All (λ e. lookup e.0 m ≡ some e.1) m
  IsMap-All [] h = tt
  IsMap-All ((j, x) ∷ m) h = (
    rw (eq_refl j) refl,
    All-zip {P = λ (e : String × V). e.0 ≢ j} {Q = λ (e : String × V). lookup e.0 m ≡ some e.1}
        {R = λ (e : String × V). lookup e.0 ((j, x) ∷ m) ≡ some e.1}
        (λ (e : String × V) n f. rw (ne→same j e.0 (λ g. n (sym g))) f) m (missing-All j m h.0)
        (IsMap-All m h.1),
  )
