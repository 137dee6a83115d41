-- ===== src/Headers/Tests.antt =====
-- Requests for headers, and the theorems at concrete inputs.
use trinity.Prelude.{
  ℕ, ◌<◌, ◌≤◌, ◌≡◌, ◌⊎◌, ◌↔◌, refl, true, false, Bool, List, [], ◌∷◌, ◌++◌, ltb, elem, ℕ_discrete,
}
use trinity.Prelude.Exec.{ok, err, validation_error, oversize_object}
use trinity.Prelude.Int.{◌+ℤ◌, ◌-ℤ◌}
use trinity.Headers.Response.{
  HeadersValidator, Header, hash, build, generate_block_numbers, validate_sequence, validate_result,
}
use trinity.Headers.Answer.{IsResponse, validate_result_lem}
use trinity.Headers.Sequence.{sequence_builder, Meant, sequence_builder_lem}
use trinity.Headers.Skipping.{
  first_incomplete_index, skip_complete_headers, AllComplete, FirstIncomplete,
  skip_complete_headers_lem,
}

program : Unit {0}
unfolding ℕ_discrete build generate_block_numbers validate_sequence validate_result sequence_builder
    first_incomplete_index skip_complete_headers ◌+ℤ◌ ◌-ℤ◌
program = tt

upwards : sequence_builder 10 3 1 false ≡ ok (10 ∷ 12 ∷ 14 ∷ [])
unfolding program
upwards = refl

down_to_zero : sequence_builder 5 4 1 true ≡ ok (5 ∷ 3 ∷ 1 ∷ [])
unfolding program
down_to_zero = refl

too_long : sequence_builder 0 1250001 0 false ≡ err oversize_object
unfolding program
too_long = refl

sequence_builder_example :
    ((sequence_builder 5 4 1 true ≡ err oversize_object) × (1250000 < 4))
    ⊎ ((numbers : List ℕ) × (4 ≤ 1250000)
        × (sequence_builder 5 4 1 true ≡ ok numbers)
        × ((n : ℕ) → (elem ℕ_discrete n numbers ≡ true) ↔ Meant 5 4 1 true n))
sequence_builder_example = sequence_builder_lem 5 4 1 true

abbrev below_five : ℕ → Bool
below_five n = ltb n 5

skip_complete_headers_example :
    ((skip_complete_headers below_five (3 ∷ 7 ∷ 4 ∷ [])).0
        ++ (skip_complete_headers below_five (3 ∷ 7 ∷ 4 ∷ [])).1
      ≡ 3 ∷ 7 ∷ 4 ∷ [])
    × AllComplete below_five (skip_complete_headers below_five (3 ∷ 7 ∷ 4 ∷ [])).0
    × FirstIncomplete below_five (skip_complete_headers below_five (3 ∷ 7 ∷ 4 ∷ [])).1
skip_complete_headers_example = skip_complete_headers_lem below_five (3 ∷ 7 ∷ 4 ∷ [])

-- Three headers from the one with hash 77 on, every second one.
abbrev request : HeadersValidator ℕ
request = record {
  block_number_or_hash = hash 77;
  max_headers = 3;
  skip = 1;
  reverse = false;
  protocol_max_request_size = 192;
}

abbrev header : ℕ → ℕ → Header ℕ
header h n = record { own_hash = h; block_number = n }

accepted : validate_result ℕ_discrete request (header 77 10 ∷ header 79 14 ∷ []) ≡ ok tt
unfolding program
accepted = refl

wrong_order :
    validate_result ℕ_discrete request (header 77 10 ∷ header 79 14 ∷ header 78 12 ∷ [])
    ≡ err validation_error
unfolding program
wrong_order = refl

validate_result_example :
    (validate_result ℕ_discrete request [] ≡ ok tt)
    × (((validate_result ℕ_discrete request (header 77 10 ∷ header 79 14 ∷ []) ≡ ok tt)
          × IsResponse ℕ_discrete request (10 ∷ 12 ∷ 14 ∷ []) (header 77 10) (header 79 14 ∷ []))
        ⊎ ((validate_result ℕ_discrete request (header 77 10 ∷ header 79 14 ∷ [])
              ≡ err validation_error)
            × ¬ IsResponse ℕ_discrete request
                (10 ∷ 12 ∷ 14 ∷ [])
                (header 77 10)
                (header 79 14 ∷ [])))
unfolding program
validate_result_example =
    validate_result_lem ℕ_discrete request (header 77 10) (header 79 14 ∷ []) (10 ∷ 12 ∷ 14 ∷ [])
      refl
