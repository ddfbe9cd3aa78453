-- ===== src/Normalizer/Sql.antt =====
-- `normalize_sql_input` of src/core/input_normalizer.py, applied again to its own result.
use honey_mind.Prelude.{ℕ, Text, is_space, any_of, ◌==◌, true, false, [], ◌∷◌, ◌≡◌, arith}
use honey_mind.Normalizer.{normalize_sql_input}
use honey_mind.Normalizer.Collapse.Idempotent.{collapse-strip-again}

quotes_plain : (c : ℕ) → is_space c ≡ true → any_of (λ q. c == q) (b'\'' ∷ b'"' ∷ b'`' ∷ []) ≡ false
unfolding is_space
quotes_plain c white = ground arith

-- Normalising an SQL input a second time changes nothing, whatever quotes it opens.
pub normalize_sql_input-again :
    (raw : Text) → normalize_sql_input (normalize_sql_input raw) ≡ normalize_sql_input raw
unfolding normalize_sql_input
normalize_sql_input-again raw = collapse-strip-again (b'\'' ∷ b'"' ∷ b'`' ∷ []) quotes_plain raw
