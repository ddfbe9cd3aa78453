-- ===== src/Analysis/Profile/Score.antt =====
-- Bounds of the score of src/analysis/attacker_profiler.py and what it decides.
use honey_mind.Prelude.{ℕ, ◌+◌, ◌≤◌, Text, List, Option, ◌≡◌, ap, arith}
use honey_mind.Analysis.Records.{IpData, BotHumanResult, Category, bot}
use honey_mind.Analysis.Profile.{
  profile_types, profile, profile_type_in, sophistication_score, anonymization_score,
  behavior_score, command_score, after_traps, timing_score, anon_of, is_trapped,
}

score_at_most :
    (ip : IpData) (r : BotHumanResult) (cs : List Category) (hour : Option ℕ)
    → sophistication_score ip r cs hour ≤ 10
unfolding sophistication_score
score_at_most ip r cs hour = omega arith

profile_type_in-range :
    (n : ℕ)
    → n ≤ 10
    → ((profile_type_in n profile_types).low ≤ n) × (n ≤ (profile_type_in n profile_types).high)
unfolding profile_type_in
profile_type_in-range n small = ground arith

-- Every profile has a score of at most 10, and its type is one whose range of scores holds it.
pub profile-range :
    (ip : IpData) (r : BotHumanResult) (cs : List Category) (hour : Option ℕ)
    → let p = profile ip r cs hour in
      (p.score ≤ 10) × ((p.profile_type.low ≤ p.score) × (p.score ≤ p.profile_type.high))
unfolding profile
profile-range ip r cs hour =
    (score_at_most ip r cs hour, profile_type_in-range _ (score_at_most ip r cs hour))

anonymization_score_at_most : (anon : Text) → anonymization_score anon ≤ 3
unfolding anonymization_score
anonymization_score_at_most anon = ground arith

command_score_at_most : (r : BotHumanResult) (cs : List Category) → command_score r cs ≤ 4
unfolding command_score
command_score_at_most r cs = ground arith

-- A session that the analyser calls a bot's reaches a score of at most 7.
pub bot_score_at_most :
    (ip : IpData) (r : BotHumanResult) (cs : List Category) (hour : Option ℕ)
    → r.verdict ≡ bot
    → (profile ip r cs hour).score ≤ 7
unfolding profile sophistication_score behavior_score timing_score after_traps
bot_score_at_most ip r cs hour is_bot = ground (
  arith,
  ap behavior_score is_bot,
  ap (λ v. timing_score v hour) is_bot,
  anonymization_score_at_most (anon_of ip),
  command_score_at_most r cs,
)

-- Whatever the other data are, a session that fell for a trap never scores more than one that is
-- the same but for the trap, nor less than one point below it.
pub trap_lowers_score :
    (ip : IpData) (r : BotHumanResult) (cs : List Category) (hour : Option ℕ)
    → let trapped = (profile ip r cs hour).score in
      let clean = (profile ip (record r { ai_trap_hits = 0 }) cs hour).score in
      (trapped ≤ clean) × (clean ≤ trapped + 1)
unfolding profile sophistication_score after_traps is_trapped command_score
trap_lowers_score ip r cs hour = ground arith
