-- ===== src/Runner/Gateway/Validation.antt =====
-- The validation of a RunnerJobSpec, in v6/models.py, when claim of runner_gateway.py makes one.
-- The job's metadata is a Metadata already, which pydantic takes as it is, and its policies are texts
-- that their Literal allows.
use collective_phase_control.Prelude.{ℕ, String, Bool, not, ◌&&◌, ◌∷◌, all, leb, length}
use collective_phase_control.Ids.{is_repeated}
use collective_phase_control.Runner.{RunnerJobSpec}
use collective_phase_control.Runner.Gateway.{Services}

abbrev pub id_pattern : String
id_pattern = "^[A-Za-z0-9][A-Za-z0-9._:-]{0,127}$"

abbrev pub sha256_pattern : String
sha256_pattern = "^sha256:[0-9a-f]{64}$"

-- Field(ge=low, le=high)
abbrev pub is_in_range : ℕ → ℕ → ℕ → Bool
is_in_range low high n = leb low n && leb n high

module _ {S : Type 0} {J : Type 0} (services : Services S J) where
  abbrev pub is_identifier : String → Bool
  is_identifier text =
      services.pattern_matches id_pattern text && leb (services.text_length text) 128

  abbrev pub is_digest_text : String → Bool
  is_digest_text text = services.pattern_matches sha256_pattern text

  -- the fields that a claim makes
  unfoldable pub is_valid_lease_part : RunnerJobSpec → Bool
  is_valid_lease_part spec = is_identifier spec.lease_id && is_in_range 1 32 spec.attempt

  -- the fields that the task gives
  unfoldable pub is_valid_task_part : RunnerJobSpec → Bool
  is_valid_task_part spec =
      is_identifier spec.job_id
      && (all is_digest_text (
            spec.action_digest ∷ spec.capability_digest ∷ spec.capability_statement_digest
            ∷ spec.execution_policy_digest ∷ spec.execution_policy_statement_digest
            ∷ spec.generation_digest ∷ spec.image_digest ∷ spec.input_digests)
          && (leb (length spec.input_digests) 10000
              && (not (is_repeated spec.input_digests)
                  && (is_in_range 1 300 spec.timeout_seconds
                      && (is_in_range 1 4194304 spec.stdout_limit
                          && is_in_range 1 4194304 spec.stderr_limit)))))

  unfoldable pub is_valid_spec : RunnerJobSpec → Bool
  unfolding is_valid_lease_part is_valid_task_part
  is_valid_spec spec = is_valid_lease_part spec && is_valid_task_part spec
