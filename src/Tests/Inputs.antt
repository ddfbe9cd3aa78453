-- ===== src/Tests/Inputs.antt =====
-- Runs of the input normalisation (src/core/input_normalizer.py).
use honey_mind.Prelude.{Text, codes, concat, ◌≡◌}
use honey_mind.Normalizer.Tokens.{tokenize_shell_like}
use honey_mind.Normalizer.Tokens.Content.{squeeze, squeeze-tokenize_shell_like}

abbrev piped : Text
piped = codes "cat  '/etc/my file'|grep -c root 2>>err\\ log"

squeeze-tokenize_shell_like_example : squeeze (concat (tokenize_shell_like piped)) ≡ squeeze piped
squeeze-tokenize_shell_like_example = squeeze-tokenize_shell_like piped
