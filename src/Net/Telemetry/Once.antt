-- ===== src/Net/Telemetry/Once.antt =====
-- The metadata are published once for each connection.
use stabilizer.Prelude.{
  ℕ, zero, suc, ◌+◌, ◌≡◌, ◌≤◌, refl, arith, ap, ◌∙◌, if◌then◌else◌, Bool, true, false, List, [],
  ◌∷◌, ◌++◌, Option, none, some, length, le→leb, length-append, Bool-cases, inl, inr,
}
use stabilizer.Prelude.Results.{◌>>=◌}
use stabilizer.Net.Telemetry.{
  Payload, telemetry, metadata, default_metadata, meta_path, Mqtt, TelemetryClient, topic_of,
  published_meta, publish_meta, update,
}

-- Whether a payload stands for the metadata, and how many in a list do.
abbrev pub metas : {T : Type 0} → List (Payload T) → ℕ
metas [] = 0
metas (telemetry _ ∷ l) = metas l
metas (metadata ∷ l) = metas l + 1
metas (default_metadata ∷ l) = metas l + 1

-- The client keeps what was published; once it can publish, a message in place of metadata that
-- were refused is sent.
pub record MqttLaws {T : Type 0} (mqtt : Mqtt T) : Type 0 where
  pub log : mqtt.State → List (Payload T)
  pub log-poll : (s : mqtt.State) → log (mqtt.poll s) ≡ log s
  pub log-publish :
      (topic : List ℕ) (p : Payload T) (s : mqtt.State)
      → log (mqtt.publish topic p s).0 ≡ (if (mqtt.publish topic p s).1 then p ∷ log s else log s)
  pub default_sent :
      (topic : List ℕ) (s : mqtt.State)
      → mqtt.can_publish s ≡ true
      → (mqtt.publish topic metadata s).1 ≡ false
      → (mqtt.publish topic default_metadata (mqtt.publish topic metadata s).0).1 ≡ true

module _ {T : Type 0} {mqtt : Mqtt T} (laws : MqttLaws mqtt) where
  open laws use {log}

  abbrev pub counted_metas : TelemetryClient mqtt → ℕ
  counted_metas c = metas (log c.client)

  abbrev to_publish : Bool → ℕ
  to_publish published = if published then 0 else 1

  -- Whether the next update finds the connection lost.
  abbrev pub lost : TelemetryClient mqtt → ℕ
  lost c = if mqtt.is_connected (mqtt.poll c.client) then 0 else 1

  topic_of_meta :
      (prefix : List ℕ)
      → length prefix ≤ 123
      → topic_of mqtt prefix meta_path ≡ some (prefix ++ meta_path)
  unfolding topic_of
  topic_of_meta prefix h =
      rw
        (
          le→leb (length prefix) 128 (omega arith),
          le→leb (length (prefix ++ meta_path)) 128 (omega (arith, length-append prefix meta_path)),
        )
        refl

  -- One message goes out, whatever the first attempt gave.
  published_meta_of :
      (topic : List ℕ) (s t : mqtt.State) (sent : Bool)
      → log t ≡ (if sent then metadata ∷ log s else log s)
      → (sent ≡ false → (mqtt.publish topic default_metadata t).1 ≡ true)
      → (u : mqtt.State) × (published_meta mqtt topic (t, sent) ≡ some u)
        × (metas (log u) ≡ metas (log s) + 1)
  unfolding published_meta
  published_meta_of topic s t true e h = (t, refl, ap metas e)
  published_meta_of topic s t false e h =
      let u = (mqtt.publish topic default_metadata t).0 in
      let more : log u ≡ default_metadata ∷ log t =
        laws.log-publish topic default_metadata t ∙ rw (h refl) refl in
      (u, rw (h refl) refl, ap metas more ∙ ap (λ l. metas l + 1) e)

  -- An update returns, and a message that it published is paid for by the client, which had none to
  -- its name, or by a lost connection.
  pub update_lem :
      (c : TelemetryClient mqtt)
      → length c.prefix ≤ 123
      → (d : TelemetryClient mqtt) × (update mqtt c ≡ some d)
        × (d.prefix ≡ c.prefix)
        × (counted_metas d + to_publish d.meta_published
            ≤ counted_metas c + to_publish c.meta_published + lost c)
        × (mqtt.is_connected (mqtt.poll c.client) ≡ true
            → mqtt.can_publish (mqtt.poll c.client) ≡ true
            → d.meta_published ≡ true)
  unfolding update publish_meta
  update_lem c h =
      let s = mqtt.poll c.client in
      let kept = ap metas (laws.log-poll c.client) in
      elim (Bool-cases (mqtt.is_connected s)) [
        | inl up ↦ elim (Bool-cases c.meta_published) [
          | inl done ↦ (
            record c { client = s },
            rw (up, done) refl,
            refl,
            rw done (omega (arith, kept)),
            λ _ _. done,
          )
          | inr unsent ↦ elim (Bool-cases (mqtt.can_publish s)) [
            | inl able ↦
                let (u, run, more) =
                  published_meta_of (c.prefix ++ meta_path) s _ _ (laws.log-publish _ metadata s)
                    (laws.default_sent (c.prefix ++ meta_path) s able) in
                (
                  record c { client = u; meta_published = true },
                  rw (up, unsent, able, topic_of_meta c.prefix h, run) refl,
                  refl,
                  rw unsent (omega (arith, kept, more)),
                  λ _ _. refl,
                )
            | inr unable ↦ (
              record c { client = s },
              rw (up, unsent, unable) refl,
              refl,
              omega (arith, kept),
              λ _ k. cc,
            )
          ]
        ]
        | inr down ↦ (
          record c { client = s; meta_published = false },
          rw down refl,
          refl,
          rw down (omega (arith, kept)),
          λ k _. cc,
        )
      ]

  at_most_one :
      (new old more : ℕ) (a b : Bool)
      → new + to_publish a ≤ old + to_publish b + more
      → new ≤ old + 1 + more
  at_most_one new old more true true h = omega (arith, h)
  at_most_one new old more true false h = omega (arith, h)
  at_most_one new old more false true h = omega (arith, h)
  at_most_one new old more false false h = omega (arith, h)

  -- Updates in a row, and how many of them find the connection lost.
  abbrev pub updates : ℕ → TelemetryClient mqtt → Option (TelemetryClient mqtt)
  updates zero c = some c
  updates (suc n) c = update mqtt c >>= updates n

  abbrev pub losses : ℕ → TelemetryClient mqtt → ℕ
  losses zero c = 0
  losses (suc n) c = lost c + elim (update mqtt c) [ none ↦ 0 | some d ↦ losses n d ]

  updates_lem :
      (n : ℕ) (c : TelemetryClient mqtt)
      → length c.prefix ≤ 123
      → (d : TelemetryClient mqtt) × (updates n c ≡ some d)
        × (counted_metas d + to_publish d.meta_published
            ≤ counted_metas c + to_publish c.meta_published + losses n c)
  updates_lem zero c h = (c, refl, omega arith)
  updates_lem (suc n) c h =
      let (d, run, same, bound, _) = update_lem c h in
      let (e, runs, bounds) = updates_lem n d (rw same h) in
      (e, rw run runs, rw run (omega (arith, bound, bounds)))

  -- For a client that keeps what was published and sends the message in place of refused metadata,
  -- and a prefix of at most 123 bytes: any number of updates return, and publish the metadata, or
  -- the message in their place, at most once, and once more for each update that finds the
  -- connection lost.
  pub updates-Once :
      (n : ℕ) (c : TelemetryClient mqtt)
      → length c.prefix ≤ 123
      → (d : TelemetryClient mqtt) × (updates n c ≡ some d)
        × (counted_metas d ≤ counted_metas c + 1 + losses n c)
  updates-Once n c h =
      let (d, run, bound) = updates_lem n c h in
      (
        d,
        run,
        at_most_one (counted_metas d) (counted_metas c) (losses n c) d.meta_published
            c.meta_published bound,
      )
