-- ===== src/Analysis/Records.antt =====
-- What the profile reads: the categories of src/analysis/attack_classifier.py, the data of an
-- address and the result of src/analysis/bot_human_analyzer.py. A set of categories is a list
-- without repetitions; the ratio of known tools is the rounded one, in hundredths.
use honey_mind.Prelude.{ℕ, Text, leb, Bool, ◌&&◌, List, Option, any_of}

-- src/analysis/attack_classifier.py
pub data Category : Type 0 where
  login recon discovery credential_access execution persistence privilege_escalation : Category
  lateral_movement exfiltration impact unknown : Category

abbrev category_rank : Category → ℕ
category_rank login = 0
category_rank recon = 1
category_rank discovery = 2
category_rank credential_access = 3
category_rank execution = 4
category_rank persistence = 5
category_rank privilege_escalation = 6
category_rank lateral_movement = 7
category_rank exfiltration = 8
category_rank impact = 9
category_rank unknown = 10

-- `category in categories`
unfoldable pub has_category : Category → List Category → Bool
has_category c cs =
    any_of (λ d. leb (category_rank c) (category_rank d) && leb (category_rank d) (category_rank c))
      cs

pub data Verdict : Type 0 where
  bot human unclear : Verdict

pub record IpData : Type 0 where
  pub anonymization_type : Option Text
  pub country_code : Option Text
  pub city : Option Text
  pub country : Option Text

-- the fields of `BotHumanResult` that the profile reads; the last two are signals
pub record BotHumanResult : Type 0 where
  pub verdict : Verdict
  pub known_tool_ratio : ℕ
  pub ai_trap_hits : ℕ
