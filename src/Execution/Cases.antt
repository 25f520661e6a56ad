-- ===== src/Execution/Cases.antt =====
-- Case splits on the calls and tests of the engine's monad.
use code_kit_ultra.Base.{String, ◌≡◌, refl, Option, some, Bool, true, false, if◌then◌else◌}
use code_kit_ultra.Execution.Machine.{
  Machine, M, Result, threw, Call, Reply, ok, raised, settle, pure, call, continue, ◌>>=◌,
}

module _ {W : Type 0} where
  -- What follows a call runs in the same machine but for the world.
  pub call-case {ℓ} :
      {A B : Type 0} (P : Result B × Machine W → Type ℓ) (c : Call W A) (k : A → M W B)
      (m : Machine W)
      → ((a : A) → P (k a (record m { world = (c m.world).1 })))
      → ((e : String) → P (threw e, record m { world = (c m.world).1 }))
      → P ((call c >>= k) m)
  unfolding ◌>>=◌
  call-case {A} P c k m f g = go (c m.world).0
    where
      go : (r : Reply A) → P (continue (settle r) k (record m { world = (c m.world).1 }))
      go (ok a) = f a
      go (raised e) = g e

  pub call_some-case {ℓ} :
      {A B : Type 0} (P : Result B × Machine W → Type ℓ) (c : Call W A) (k : Option A → M W B)
      (m : Machine W)
      → ((a : A) → P (k (some a) (record m { world = (c m.world).1 })))
      → ((e : String) → P (threw e, record m { world = (c m.world).1 }))
      → P (((call c >>= λ a. pure (some a)) >>= k) m)
  unfolding ◌>>=◌
  call_some-case {A} {B} P c k m f g = go (c m.world).0
    where
      go :
          (r : Reply A)
          → P (
              let q =
                continue {B = Option A}
                  (settle r)
                  (λ a. pure (some a))
                  (record m { world = (c m.world).1 }) in
              continue q.0 k q.1)
      go (ok a) = f a
      go (raised e) = g e

  pub if-case {ℓ} :
      {B : Type 0} (P : Result B × Machine W → Type ℓ) (b : Bool) (c d : M W B) (m : Machine W)
      → (b ≡ true → P (c m))
      → (b ≡ false → P (d m))
      → P ((if b then c else d) m)
  if-case P true c d m f g = f refl
  if-case P false c d m f g = g refl
