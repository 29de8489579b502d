-- ===== src/Bootstrap/Registered.antt =====
-- Register and Lookup of bootstrap/validator.go.
use specification_enhancemen.Prelude.{
  String, ◌==◌, some, [], ◌∷◌, ◌≡◌, refl, arith, if◌then◌else◌, eq_iff,
}
use specification_enhancemen.Bootstrap.{Validator, Registry, register, lookup_validator}

-- After a registration, Lookup returns the new validator for its method and for every other method
-- what it returned before.
pub lookup_validator-register :
    (method other : String) (v : Validator) (r : Registry)
    → lookup_validator other (register method v r)
      ≡ (if method == other then some v else lookup_validator other r)
unfolding lookup_validator register
lookup_validator-register method other v [] = refl
lookup_validator-register method other v ((m, w) ∷ r) = ground (
  arith,
  eq_iff method other,
  eq_iff m method,
  eq_iff m other,
  lookup_validator-register method other v r,
)
