-- ===== src/Permissions/Granted.antt =====
-- Which permissions a list of roles gives: resolve-permissions.ts.
use code_kit_ultra.Base.{
  String, ◌≡◌, refl, ◌∙◌, ap, sym, List, [], ◌∷◌, ◌++◌, true, false, ◌||◌, any, includes, same,
  if-split, Bool-cases, inl, inr, eq_iff, arith,
}
use code_kit_ultra.Permissions.Resolve.{add, add_all, granted_by, add_roles, resolve_permissions}

includes-append :
    (p : String) (xs ys : List String) → includes p (xs ++ ys) ≡ (includes p xs || includes p ys)
includes-append p [] ys = refl
includes-append p (x ∷ xs) ys = ground (arith, includes-append p xs ys)

-- No text stands twice.
abbrev pub IsDistinct : List String → Type 0
IsDistinct [] = Unit
IsDistinct (x ∷ xs) = (includes x xs ≡ false) × IsDistinct xs

includes-same :
    (q : String) (set : List String) (p : String)
    → includes p set ≡ true
    → includes q set ≡ (includes q set || same p q)
includes-same q set p e = elim (Bool-cases (same p q)) [
  | inl s ↦
      let h : includes q set ≡ true = ap (λ x. includes x set) (sym ((eq_iff p q).0 s)) ∙ e in
      ground (arith, h, s)
  | inr s ↦ ground (arith, s)
]

same_sym : (s t : String) → same s t ≡ false → same t s ≡ false
same_sym s t h = ground (arith, eq_iff s t, eq_iff t s, h)

IsDistinct-append :
    (x : String) (xs : List String)
    → IsDistinct xs
    → includes x xs ≡ false
    → IsDistinct (xs ++ x ∷ [])
IsDistinct-append x [] h k = (refl, tt)
IsDistinct-append x (y ∷ xs) h k = (
  includes-append y xs (x ∷ []) ∙ ground (arith, h.0, same_sym y x (ground (arith, k))),
  IsDistinct-append x xs h.1 (ground (arith, k)),
)

add-IsDistinct : (set : List String) (p : String) → IsDistinct set → IsDistinct (add set p)
unfolding add
add-IsDistinct set p h =
    if-split IsDistinct (includes p set) set (set ++ p ∷ []) (λ _. h)
      (λ e. IsDistinct-append p set h e)

add_all-IsDistinct : (set ps : List String) → IsDistinct set → IsDistinct (add_all set ps)
unfolding add_all
add_all-IsDistinct set [] h = h
add_all-IsDistinct set (p ∷ ps) h = add_all-IsDistinct (add set p) ps (add-IsDistinct set p h)

includes-add :
    (q : String) (set : List String) (p : String)
    → includes q (add set p) ≡ (includes q set || same p q)
unfolding add
includes-add q set p =
    if-split (λ s. includes q s ≡ (includes q set || same p q)) (includes p set) set (set ++ p ∷ [])
      (includes-same q set p) (λ _. includes-append q set (p ∷ []) ∙ ground arith)

includes-add_all :
    (q : String) (set ps : List String)
    → includes q (add_all set ps) ≡ (includes q set || includes q ps)
unfolding add_all
includes-add_all q set [] = ground arith
includes-add_all q set (p ∷ ps) =
    includes-add_all q (add set p) ps ∙ ground (arith, includes-add q set p)

module _ (to_lower_case : String → String) where
  includes-add_roles :
      (q : String) (set roles : List String)
      → includes q (add_roles to_lower_case set roles)
        ≡ (includes q set || any (λ r. includes q (granted_by to_lower_case r)) roles)
  unfolding add_roles
  includes-add_roles q set [] = ground arith
  includes-add_roles q set (r ∷ roles) =
      includes-add_roles q (add_all set (granted_by to_lower_case r)) roles
      ∙ ground (arith, includes-add_all q set (granted_by to_lower_case r))

  -- The roles give a permission exactly when one of them does.
  pub resolve_permissions-includes :
      (permission : String) (roles : List String)
      → includes permission (resolve_permissions to_lower_case roles)
        ≡ any (λ r. includes permission (granted_by to_lower_case r)) roles
  unfolding resolve_permissions
  resolve_permissions-includes permission roles = includes-add_roles permission [] roles

  add_roles-IsDistinct :
      (set roles : List String) → IsDistinct set → IsDistinct (add_roles to_lower_case set roles)
  unfolding add_roles
  add_roles-IsDistinct set [] h = h
  add_roles-IsDistinct set (r ∷ roles) h =
      add_roles-IsDistinct (add_all set (granted_by to_lower_case r)) roles
        (add_all-IsDistinct set (granted_by to_lower_case r) h)

  -- No permission is listed twice, however the roles overlap.
  pub resolve_permissions-IsDistinct :
      (roles : List String) → IsDistinct (resolve_permissions to_lower_case roles)
  unfolding resolve_permissions
  resolve_permissions-IsDistinct roles = add_roles-IsDistinct [] roles tt
