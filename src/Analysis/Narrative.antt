-- ===== src/Analysis/Narrative.antt =====
-- `_build_narrative` of src/analysis/attacker_profiler.py.
use honey_mind.Prelude.{
  ℕ, Text, codes, member, join, space, is_some, Dict, lookup, Bool, true, false, List, [], ◌∷◌,
  ◌++◌, if◌then◌else◌, Option, none, some,
}
use honey_mind.Analysis.Records.{
  Category, credential_access, persistence, exfiltration, lateral_movement, has_category, Verdict,
  bot, human, unclear, IpData, BotHumanResult,
}

abbrev pub anon_labels : Dict Text
anon_labels =
    (codes "tor", codes "via Tor")
    ∷ (codes "vpn_commercial", codes "via VPN commercial")
    ∷ (codes "proxy", codes "via proxy")
    ∷ (codes "datacenter", codes "depuis un VPS/datacenter")
    ∷ (codes "residential", codes "depuis une IP résidentielle (machine compromise ?)")
    ∷ (codes "unknown", codes "anonymisation inconnue")
    ∷ []

-- one flag where its test holds
unfoldable pub flag : Bool → Text → List Text
flag test name = if test then name ∷ [] else []

agent_part : Bool → Verdict → Text
agent_part true verdict = codes "Agent IA automatisé"
agent_part false bot = codes "Bot automatisé"
agent_part false human = codes "Attaquant humain"
agent_part false unclear = codes "Origine incertaine"

-- `filter(None, …)` on texts that may be missing
present : List (Option Text) → List Text
present [] = []
present (none ∷ xs) = present xs
present (some [] ∷ xs) = present xs
present (some (c ∷ s) ∷ xs) = (c ∷ s) ∷ present xs

location_parts : Text → List Text
location_parts [] = []
location_parts (c ∷ location) = (codes "depuis " ++ c ∷ location) ∷ []

label_parts : Option Text → List Text
label_parts none = []
label_parts (some anon_label) = anon_label ∷ []

timing_parts : List Text → List Text
timing_parts flags =
    if member (codes "business_hours_local") flags
    then codes "opérant pendant ses heures de bureau" ∷ []
    else if member (codes "night_local") flags
    then codes "attaquant en pleine nuit locale (probablement automatisé ou autre fuseau)" ∷ []
    else []

objectives : List Category → List Text
unfolding flag
objectives categories =
    flag (has_category credential_access categories) (codes "vol de credentials")
    ++ flag (has_category exfiltration categories) (codes "exfiltration de données")
    ++ flag (has_category persistence categories) (codes "persistance")
    ++ flag (has_category lateral_movement categories) (codes "mouvement latéral")

objective_parts : List Text → List Text
objective_parts [] = []
objective_parts (o ∷ os) = (codes "— objectifs : " ++ join (codes ", ") (o ∷ os)) ∷ []

-- `_build_narrative`
unfoldable pub build_narrative :
    IpData → BotHumanResult → List Category → Text → List Text → Option ℕ → Text
unfolding agent_part present location_parts label_parts timing_parts objectives objective_parts
build_narrative ip_data result categories anon flags local_hour =
    join (space ∷ []) (
      agent_part (member (codes "ai_agent") flags) result.verdict
        ∷ location_parts (join (codes ", ") (present (ip_data.city ∷ ip_data.country ∷ [])))
      ++ label_parts (lookup anon anon_labels)
      ++ (if is_some local_hour then timing_parts flags else [])
      ++ objective_parts (objectives categories))
    ++ codes "."
