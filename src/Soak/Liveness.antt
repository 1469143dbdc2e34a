-- ===== src/Soak/Liveness.antt =====
-- What the liveness check of a soak run makes of the records of the probe.
use telegram_olymptrade_sign.Prelude.{
  ℕ, ◌+◌, ◌-◌, ◌*◌, ◌≤◌, ◌≡◌, ◌<◌, ◌⊎◌, ap, ◌∙◌, inl, inr, Bool-cases, refl, Bool, true, false, not,
  Option, none, some, String, List, [], ◌∷◌, leb, ltb, arith,
}
use telegram_olymptrade_sign.Prelude.Int.{ℤ}
use telegram_olymptrade_sign.Config.{Time, seconds}
use telegram_olymptrade_sign.Soak.{
  LivenessRecord, connected_count, hours_of, assert_telegram_liveness,
}
use telegram_olymptrade_sign.Soak.Probe.{
  Round, Pinged, goes_on, probe_round, with_line, probe, has_credentials, Probed, liveness_probe,
  read_liveness_records, liveness_interval_getme,
}

-- The rounds are in the run, each at most 60 seconds after the one before it, and `get_me` is answered whenever
-- it is called.
abbrev pub IsHealthy : Time → Time → Time → List Round → Type 0
IsHealthy start duration before [] = Unit
IsHealthy start duration before (r ∷ rounds) =
    (goes_on start duration r ≡ true)
    × (before ≤ r.now)
    × (r.now ≤ before + seconds 60)
    × (r.get_me_raises ≡ false)
    × IsHealthy start duration r.now rounds

-- The time of the last round.
abbrev pub last_now : Time → List Round → Time
last_now before [] = before
last_now before (r ∷ rounds) = last_now r.now rounds

-- A round leaves a connected record of `get_me`, or the last call of it is less than half an hour ago.
abbrev Covers : Pinged → Round → Type 0
Covers s r =
    ((line : LivenessRecord) × (s' : Pinged) × (probe_round s r ≡ (some line, s'))
      × (line.connected ≡ true)
      × (s'.last_getme ≡ r.now))
    ⊎ ((probe_round s r).1.last_getme ≡ s.last_getme) × (r.now < s.last_getme + seconds 1_800)

probe_round-Covers : (s : Pinged) (r : Round) → r.get_me_raises ≡ false → Covers s r
unfolding probe_round
probe_round-Covers s r met =
    elim (Bool-cases (leb liveness_interval_getme (r.now - s.last_getme))) [
      | inl due ↦ inl (
        record { timestamp = r.now; connected = true },
        record s { last_getme = r.now },
        rw (probe_round, due, met) refl,
        refl,
        refl,
      )
      | inr early ↦ inr (rw (probe_round, early) (ground arith), ground (arith, early))
    ]

count_with_line :
    (line : Option LivenessRecord) (records : List LivenessRecord)
    → connected_count records ≤ connected_count (with_line line records)
unfolding connected_count
count_with_line none records = omega arith
count_with_line (some r) records = ground arith

module _ (start duration : Time) (s : Pinged) (r : Round) (rounds : List Round) where
  probe_wrote :
      (line : LivenessRecord) (s' : Pinged)
      → goes_on start duration r ≡ true
      → probe_round s r ≡ (some line, s')
      → probe start duration s (r ∷ rounds) ≡ line ∷ probe start duration s' rounds
  unfolding probe
  probe_wrote line s' g e = rw (probe, g, e) refl

  probe_later :
      goes_on start duration r ≡ true
      → connected_count (probe start duration (probe_round s r).1 rounds)
        ≤ connected_count (probe start duration s (r ∷ rounds))
  unfolding probe
  probe_later g = rw (g, probe) (count_with_line (probe_round s r).0 _)

count_more :
    (line : LivenessRecord) (records : List LivenessRecord)
    → line.connected ≡ true
    → connected_count (line ∷ records) ≡ 1 + connected_count records
unfolding connected_count
count_more line records h = rw (connected_count, h) refl

probe_covers :
    (start duration : Time) (s : Pinged) (before : Time) (rounds : List Round) (b : Time)
    → IsHealthy start duration before rounds
    → before + seconds 60 ≤ b
    → s.last_getme + seconds 1_860 ≤ b
    → last_now before rounds ≤ b + seconds 1_860 * connected_count (probe start duration s rounds)
unfolding probe
probe_covers start duration s before [] b h p q = omega (arith, p)
probe_covers start duration s before (r ∷ rounds) b (g, lo, hi, met, h) p q =
    elim (probe_round-Covers s r met) [
      | inl (line, s', e, up, l) ↦
          let l' : s'.last_getme + seconds 1_860 ≤ b + seconds 1_860 = omega (arith, l, hi, p) in
          let rest =
            probe_covers start duration s' r.now rounds (b + seconds 1_860) h (omega (arith, hi, p))
              l' in
          let same =
            ap connected_count (probe_wrote start duration s r rounds line s' g e)
            ∙ count_more line (probe start duration s' rounds) up in
          omega (arith, rest, same)
      | inr (l, soon) ↦
          let s' = (probe_round s r).1 in
          let rest =
            probe_covers start duration s' r.now rounds b h (omega (arith, soon, q))
              (omega (arith, l, q)) in
          let more = probe_later start duration s r rounds g in omega (arith, rest, more)
    ]

-- The client of the probe connects and is authorized.
pub record IsReady (int_of : String → Option ℤ) (env : List (String × String)) (m : Probed)
    : Type 0 where
  pub has : has_credentials int_of env ≡ some true
  pub connects : m.connect_raises ≡ false
  pub authorized : m.authorized ≡ some true

-- The check over what the probe leaves.
abbrev pub checked : (String → Option ℤ) → List (String × String) → Time → Probed → Bool
checked int_of env duration m =
    (assert_telegram_liveness (read_liveness_records (liveness_probe int_of env duration m))
      duration).passed

abbrev fresh : Pinged
fresh = record { last_getme = 0; last_isconnected = 0 }

checked-probe :
    (int_of : String → Option ℤ) (env : List (String × String)) (duration : Time) (m : Probed)
    → IsReady int_of env m
    → checked int_of env duration m
      ≡ not (ltb (connected_count (probe m.start duration fresh m.rounds)) (hours_of duration))
unfolding liveness_probe read_liveness_records assert_telegram_liveness
checked-probe int_of env duration m h = rw (liveness_probe, h.has, h.connects, h.authorized) refl

enough :
    (start duration last count : ℕ)
    → last ≤ start + seconds 60 + seconds 1_860 * count
    → start + duration ≤ last + seconds 60
    → seconds 300 ≤ duration
    → not (ltb count (hours_of duration)) ≡ true
enough start duration last count cover reach long = ground (arith, cover, reach, long)

-- Where the probe of a run of at least five minutes, by a clock past the first half hour of its epoch, connects
-- with its credentials, its rounds are at most 60
-- seconds apart to the end of the run, and `get_me` is answered whenever it is called, its records pass the
-- liveness check, although every call of `is_connected` raises.
pub liveness_passes :
    (int_of : String → Option ℤ) (env : List (String × String)) (duration : Time) (m : Probed)
    → IsReady int_of env m
    → seconds 1_800 ≤ m.start
    → seconds 300 ≤ duration
    → IsHealthy m.start duration m.start m.rounds
    → m.start + duration ≤ last_now m.start m.rounds + seconds 60
    → checked int_of env duration m ≡ true
liveness_passes int_of env duration m ready late long healthy reach =
    let cover =
      probe_covers m.start duration fresh m.start m.rounds (m.start + seconds 60) healthy
        (omega arith) (omega (arith, late)) in
    checked-probe int_of env duration m ready
    ∙ enough m.start duration (last_now m.start m.rounds)
        (connected_count (probe m.start duration fresh m.rounds)) cover reach long
