-- ===== src/Consumer/Pauses/Tests.antt =====
-- A partition that ripens and is held again, and one that is revoked while it is paused.
use nine_core.Common.{ℕ, [], ◌∷◌, none, true, false, Bytes, codes, pos, ◌≡◌, refl, All}
use nine_core.Pipeline.{done}
use nine_core.Kafka.{Record}
use nine_core.Consumer.Setup.{Config, World, Machine, decoded, paused, contains, forget}
use nine_core.Consumer.Run.{resume_ripe, poll_deadline, fetch, ripened, unripe, soonest}
use nine_core.Consumer.Pauses.{
  waits_for, paused_now, forgotten, before_poll, fetches, round_during, here, later, rounds,
  revokes,
}
use nine_core.Consumer.Pauses.Table.{IsUnique}
use nine_core.Consumer.Pauses.Reached.{Reach-IsSync, revoked_stays_paused}

abbrev of_partition : ℕ → Record
of_partition p = record {
  topic = codes "events-retry-5s";
  partition = p;
  offset = 3;
  timestamp = 190;
  key = codes "acme";
  value = [];
  headers = [];
}

-- The clock stands at 200, and each poll fetches the same record.
abbrev serving : ℕ → World Bytes
serving p = record {
  State = Unit {0};
  decode = λ k v. decoded v;
  handle = λ m s. ((done, none), s);
  sink = none;
  hook = none;
  now = λ s. (200, s);
  cancelled = λ s. (false, s);
  poll = λ n d s. (record { closed = false; records = of_partition p ∷ [] }, s);
  commit_records = λ rs s. (none, s);
}

abbrev twenty : Config
twenty = record {
  brokers = codes "localhost:19092" ∷ [];
  group = codes "core";
  topic = codes "events-retry-5s";
  max_poll = pos 100;
  session = pos 0;
  commit_timeout = pos 0;
  delay = pos 20;
}

abbrev paused_until : ℕ → Machine (Unit {0})
paused_until at = record { waiting = (0, at) ∷ []; trace = paused 0 ∷ []; world = tt }

-- Partition 0 is resumed before the poll, so its next record can be fetched.
unpaused :
    All
      (λ r.
        paused_now (before_poll (serving 0) twenty (paused_until 150)).trace r.partition ≡ false)
      (fetches (serving 0) twenty (paused_until 150)).records
unfolding fetch paused_now resume_ripe poll_deadline ripened unripe soonest contains
unpaused = (refl, tt)

in_sync : paused_now (paused_until 150).trace 0 ≡ waits_for (paused_until 150).waiting 0
unfolding paused_now waits_for
in_sync = refl

alone : IsUnique ((0, 150) ∷ [])
unfolding waits_for
alone = (refl, tt)

spared : contains [] 0 ≡ false
unfolding contains
spared = refl

other_spared : contains (1 ∷ []) 0 ≡ false
unfolding contains
other_spared = refl

abbrev after_round : Machine (Unit {0})
after_round = (round_during (serving 0) twenty [] (paused_until 150)).1

Reach-IsSync_example :
    paused_now (forgotten (serving 0) twenty (1 ∷ []) after_round).trace 0
    ≡ waits_for (forgotten (serving 0) twenty (1 ∷ []) after_round).waiting 0
Reach-IsSync_example =
    Reach-IsSync (serving 0) twenty 0 (paused_until 150) (alone, in_sync)
      (later (later here (rounds [] spared unpaused refl)) (revokes (1 ∷ []) other_spared refl))

abbrev after_loss : Machine (Unit {0})
after_loss = forgotten (serving 1) twenty (0 ∷ []) (paused_until 210)

still_paused : paused_now (paused_until 210).trace 0 ≡ true
unfolding paused_now
still_paused = refl

lost : contains (0 ∷ []) 0 ≡ true
unfolding contains
lost = refl

others_unpaused :
    All
      (λ r. paused_now (before_poll (serving 1) twenty after_loss).trace r.partition ≡ false)
      (fetches (serving 1) twenty after_loss).records
unfolding fetch paused_now resume_ripe poll_deadline ripened unripe soonest contains forget
others_unpaused = (refl, tt)

revoked_stays_paused_example :
    (paused_now (round_during (serving 1) twenty [] after_loss).1.trace 0 ≡ true)
    × (waits_for (round_during (serving 1) twenty [] after_loss).1.waiting 0 ≡ false)
revoked_stays_paused_example =
    revoked_stays_paused (serving 1) twenty 0 (0 ∷ []) (paused_until 210) alone still_paused lost
      (later here (rounds [] tt others_unpaused refl))
