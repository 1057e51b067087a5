-- ===== src/Adapter/Meter.antt =====
-- The usage meter of src/harnesses/_shared/harnessRuntime.ts over a sequence of readings.
use modular_agentic_system.Base.{ℕ, ◌≡◌, refl, ap, ◌∙◌, List, [], ◌∷◌, arith, max}
use modular_agentic_system.Adapter.{UsageMeter, UsageDelta, observe_cumulative, add}

unfoldable pub observe_all : List (ℕ × ℕ) → UsageMeter → UsageMeter × List UsageDelta
observe_all [] m = (m, [])
observe_all ((i, o) ∷ readings) m =
    let (m', d) = observe_cumulative i o m in
    let (m'', ds) = observe_all readings m' in (m'', d ∷ ds)

-- The deltas, added one by one.
unfoldable pub add_all : List UsageDelta → UsageMeter → UsageMeter
add_all [] m = m
add_all (d ∷ ds) m = add_all ds (add d.input_tokens d.output_tokens m)

unfoldable pub highest : List (ℕ × ℕ) → UsageMeter → UsageMeter
highest [] m = m
highest ((i, o) ∷ readings) m =
    highest readings
      (record { input_tokens = max m.input_tokens i; output_tokens = max m.output_tokens o })

-- One reading.
add_delta :
    (i o : ℕ) (m : UsageMeter)
    → add (observe_cumulative i o m).1.input_tokens (observe_cumulative i o m).1.output_tokens m
      ≡ (observe_cumulative i o m).0
unfolding observe_cumulative add
add_delta i o m = ground arith

-- From any meter and for any cumulative readings, in any order: the deltas that are reported, added up,
-- give the final meter, which has the highest reading of each kind; so no token is reported twice, and a
-- reading that falls back reports none.
pub observe_all-adds :
    (readings : List (ℕ × ℕ)) (m : UsageMeter)
    → (add_all (observe_all readings m).1 m ≡ (observe_all readings m).0)
      × ((observe_all readings m).0 ≡ highest readings m)
unfolding observe_all add_all highest observe_cumulative add
observe_all-adds [] m = (refl, refl)
observe_all-adds ((i, o) ∷ readings) m =
    let (a, b) = observe_all-adds readings (observe_cumulative i o m).0 in
    let ds = (observe_all readings (observe_cumulative i o m).0).1 in
    (ap (λ m'. add_all ds m') (add_delta i o m) ∙ a, b)
