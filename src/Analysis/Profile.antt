-- ===== src/Analysis/Profile.antt =====
-- `profile` and `score_icon` of src/analysis/attacker_profiler.py.
pub mod Score
use honey_mind.Prelude.{
  ℕ, ◌+◌, ◌-◌, min, Text, codes, eqb, member, join, space, length, ltb, leb, get_or, is_some, Dict,
  lookup, Bool, true, false, ◌||◌, ◌&&◌, List, [], ◌∷◌, ◌++◌, if◌then◌else◌, Option, none, some,
  any_of,
}
use honey_mind.Analysis.Records.{
  Category, persistence, exfiltration, lateral_movement, privilege_escalation, has_category,
  Verdict, bot, human, unclear, IpData, BotHumanResult,
}
use honey_mind.Analysis.Narrative.{flag, build_narrative}

pub record ProfileType : Type 0 where
  pub low : ℕ
  pub high : ℕ
  pub profile_id : Text
  pub profile_label : Text

abbrev pub opportunist : ProfileType
opportunist = record {
  low = 4;
  high = 5;
  profile_id = codes "opportunist";
  profile_label = codes "Opportuniste";
}

abbrev pub profile_types : List ProfileType
profile_types =
    (record {
      low = 0;
      high = 3;
      profile_id = codes "script_kiddie";
      profile_label = codes "Script Kiddie";
    })
    ∷ opportunist
    ∷ (record {
      low = 6;
      high = 8;
      profile_id = codes "targeted";
      profile_label = codes "Attaquant ciblé";
    })
    ∷ (record {
      low = 9;
      high = 10;
      profile_id = codes "nation_state";
      profile_label = codes "Acteur sophistiqué / APT";
    })
    ∷ []

abbrev pub high_risk_countries : List Text
high_risk_countries = codes "KP" ∷ codes "IR" ∷ codes "RU" ∷ codes "CN" ∷ []

unfoldable pub anonymization_score : Text → ℕ
anonymization_score anon =
    if eqb anon (codes "residential")
    then 3
    else if eqb anon (codes "vpn_commercial")
    then 2
    else if eqb anon (codes "tor")
    then 1
    else 0

unfoldable pub behavior_score : Verdict → ℕ
behavior_score human = 2
behavior_score unclear = 1
behavior_score bot = 0

unfoldable pub is_advanced : List Category → Bool
unfolding has_category
is_advanced categories =
    has_category privilege_escalation categories
    || has_category lateral_movement categories
    || has_category persistence categories
    || has_category exfiltration categories

unfoldable pub command_score : BotHumanResult → List Category → ℕ
unfolding is_advanced
command_score result categories =
    (if is_advanced categories then 2 else 0)
    + (if ltb result.known_tool_ratio 20 && ltb 3 (length categories) then 2 else 0)

unfoldable pub is_trapped : BotHumanResult → Bool
is_trapped result = ltb 0 result.ai_trap_hits

-- a point less for a session that fell for a trap; `-` stops at 0 as the code's `max`
unfoldable pub after_traps : Bool → ℕ → ℕ
after_traps trapped score = if trapped then score - 1 else score

unfoldable pub in_business_hours : Option ℕ → Bool
in_business_hours none = false
in_business_hours (some hour) = leb 9 hour && leb hour 18

unfoldable pub at_night : Option ℕ → Bool
at_night none = false
at_night (some hour) = leb hour 5

unfoldable pub timing_score : Verdict → Option ℕ → ℕ
unfolding in_business_hours
timing_score human local_hour = if in_business_hours local_hour then 1 else 0
timing_score verdict local_hour = 0

unfoldable pub anon_of : IpData → Text
anon_of ip_data = get_or ip_data.anonymization_type (codes "unknown")

unfoldable pub sophistication_score : IpData → BotHumanResult → List Category → Option ℕ → ℕ
unfolding anonymization_score behavior_score command_score is_trapped after_traps timing_score
    anon_of
sophistication_score ip_data result categories local_hour = min 10 (
    after_traps (is_trapped result) (
      anonymization_score (anon_of ip_data)
      + behavior_score result.verdict
      + command_score result categories)
    + timing_score result.verdict local_hour)

is_high_risk : Option Text → Bool
is_high_risk none = false
is_high_risk (some cc) = member cc high_risk_countries

unfoldable pub flags_of : IpData → BotHumanResult → Option ℕ → List Text
unfolding flag is_high_risk in_business_hours at_night is_trapped anon_of
flags_of ip_data result local_hour =
    flag (eqb (anon_of ip_data) (codes "residential")) (codes "machine_compromise_suspected")
    ++ flag (is_trapped result) (codes "ai_agent")
    ++ flag (is_high_risk ip_data.country_code) (codes "geopolitical")
    ++ flag (in_business_hours local_hour) (codes "business_hours_local")
    ++ flag (at_night local_hour) (codes "night_local")

unfoldable pub profile_type_in : ℕ → List ProfileType → ProfileType
profile_type_in score [] = opportunist
profile_type_in score (t ∷ ts) =
    if leb t.low score && leb score t.high then t else profile_type_in score ts

pub record Profile : Type 0 where
  pub score : ℕ
  pub profile_type : ProfileType
  pub flags : List Text
  pub narrative : Text

-- `profile`
unfoldable pub profile : IpData → BotHumanResult → List Category → Option ℕ → Profile
unfolding sophistication_score flags_of profile_type_in build_narrative
profile ip_data result categories local_hour =
    let score = sophistication_score ip_data result categories local_hour in
    let flags = flags_of ip_data result local_hour in
    record {
      score = score;
      profile_type = profile_type_in score profile_types;
      flags = flags;
      narrative = build_narrative ip_data result categories (anon_of ip_data) flags local_hour;
    }

-- the first matching entry of `_SCORE_ICONS`, then the icon of a score that none holds
unfoldable pub score_icon : ℕ → Text
score_icon score =
    if leb score 3
    then codes "🟢"
    else if leb 4 score && leb score 5
    then codes "🟡"
    else if leb 6 score && leb score 8
    then codes "🟠"
    else if leb 9 score && leb score 10
    then codes "🔴"
    else codes "⚪"
