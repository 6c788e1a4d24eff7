-- ===== src/Tests/Names.antt =====
-- Names of numbers at concrete inputs.
use go_agentx.Prelude.{ℕ, ◌≡◌, refl, arith}
use go_agentx.Prelude.Text.{codes}
use go_agentx.Prelude.Dict.{find}
use go_agentx.Oid.{decimal, digits_onto}
use go_agentx.Pdu.Names.{error_name, name_or_number}
use go_agentx.Pdu.Names.Distinct.{error_name_injective}

-- 5 is genErr.
error_name_injective_example : ◌≡◌ {A = ℕ} 5 5
error_name_injective_example = error_name_injective 5 5 (omega arith) (omega arith) refl

gen_err_text : error_name 5 ≡ codes "ErrorGenErr"
unfolding error_name name_or_number find
gen_err_text = refl

unknown_error_text : error_name 1000 ≡ codes "ErrorUnknown (1000)"
unfolding error_name name_or_number find decimal digits_onto
unknown_error_text = refl
