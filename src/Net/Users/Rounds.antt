-- ===== src/Net/Users/Rounds.antt =====
-- A round of the users returns, tells what has changed, and keeps the buffers of the stream.
use stabilizer.Prelude.{
  ℕ, ◌≡◌, ◌≢◌, ◌↔◌, ◌≤◌, ◌<◌, refl, if◌then◌else◌, Bool, true, false, Option, none, some, length,
}
use stabilizer.Prelude.Results.{Result, ok, err}
use stabilizer.Net.DataStream.{FrameGenerator}
use stabilizer.Net.DataStream.Contract.{PoolLaws, QueueLaws}
use stabilizer.Net.DataStream.Transmit.{DataStream, process}
use stabilizer.Net.DataStream.Transmit.Delivery.{process-Delivers, stock}
use stabilizer.Net.NetworkProcessor.{UpdateState, updated, no_change}
use stabilizer.Net.NetworkProcessor
use stabilizer.Net.Telemetry.Once.{MqttLaws, update_lem}
use stabilizer.Net.Users.{
  Parts, NetworkUsers, NetworkState, settings_changed, net_updated, net_unchanged, is_streaming,
  polled, combined, update,
}

-- The state that a round tells, by what the parts told.
unfoldable pub Tells : (E : Type 0) → Result E Bool → UpdateState → NetworkState → Type 0
Tells E changes polling state =
    ((state ≡ settings_changed) ↔ (changes ≡ ok true))
    × ((state ≡ net_unchanged) ↔ ((changes ≢ ok true) × (polling ≡ no_change)))

changed_told : (E : Type 0) (polling : UpdateState) → Tells E (ok true) polling settings_changed
unfolding Tells
changed_told E polling = ((λ _. refl, λ _. refl), (λ e. cc, λ h. absurd (h.0 refl)))

polled_told :
    {E : Type 0} (changes : Result E Bool) (polling : UpdateState)
    → changes ≢ ok true
    → Tells E changes polling (elim polling [ no_change ↦ net_unchanged | updated ↦ net_updated ])
unfolding Tells
polled_told changes no_change h = ((λ e. cc, λ e. absurd (h e)), (λ _. (h, refl), λ _. refl))
polled_told changes updated h = ((λ e. cc, λ e. absurd (h e)), (λ e. cc, λ k. cc))

module _ {S T : Type 0} (parts : Parts S T) where
  open parts use {pool, queue, udp, network, mqtt, miniconf}

  combined_told :
      (changes : Result miniconf.Fault Bool) (polling : UpdateState)
      → Tells miniconf.Fault changes polling (combined parts changes (polled parts polling))
  combined_told (ok true) polling = changed_told miniconf.Fault polling
  combined_told (ok false) no_change = polled_told (ok false) no_change (λ e. cc)
  combined_told (ok false) updated = polled_told (ok false) updated (λ e. cc)
  combined_told (err e) no_change = polled_told (err e) no_change (λ e. cc)
  combined_told (err e) updated = polled_told (err e) updated (λ e. cc)

  module _ (pl : PoolLaws pool) (ql : QueueLaws queue)
      (closes : (socket : udp.Socket) (s : udp.State) → (udp.close socket s).1 ≡ true)
      (mqtt_laws : MqttLaws mqtt) where
    open ql use {view}

    -- The stream of a round: none while the generator is kept.
    stream_lem :
        (fuel : ℕ) (g : Option FrameGenerator) (s : DataStream pool queue udp)
        → length (view s.queued) < fuel
        → (t : DataStream pool queue udp) × ((if is_streaming parts g
              then process pool queue udp fuel s
              else some s)
            ≡ some t)
          × (stock udp pl ql t ≡ stock udp pl ql s)
          × (is_streaming parts g ≡ false → t ≡ s)
    stream_lem fuel none s enough =
        let (t, run, _, same) = process-Delivers udp pl ql closes fuel s enough in
        (t, run, same, λ e. cc)
    stream_lem fuel (some g) s enough = (s, refl, refl, λ _. refl)

    -- What a round does.
    abbrev pub RunsRound :
        ℕ → S → NetworkUsers parts → Option (NetworkUsers parts × S × NetworkState) → Type 0
    RunsRound fuel settings u result =
        (v : NetworkUsers parts) × (changed : S) × (state : NetworkState) × (result
          ≡ some (v, changed, state))
        × Tells miniconf.Fault (miniconf.update u.config settings).2
            (stabilizer.Net.NetworkProcessor.update network u.processor).1 state
        × (changed ≡ (miniconf.update u.config settings).1)
        × (v.generator ≡ u.generator)
        × (stock udp pl ql v.stream ≡ stock udp pl ql u.stream)
        × (is_streaming parts u.generator ≡ false → v.stream ≡ u.stream)

    -- Over pool, queue and MQTT client with their laws and a network whose close never fails, with
    -- more fuel than queued frames and a prefix of at most 123 bytes: a round of the users
    -- returns; it tells changed settings exactly if the settings client changed them, and no
    -- change exactly if that did not and the processor saw none; the generator is as before, free
    -- buffers and queued frames together are as many as before, and while the generator is not
    -- given away the stream is not touched.
    pub update-RunsRound :
        (fuel : ℕ) (settings : S) (u : NetworkUsers parts)
        → length (view u.stream.queued) < fuel
        → length u.telemetry.prefix ≤ 123
        → RunsRound fuel settings u (update parts fuel settings u)
    unfolding update
    update-RunsRound fuel settings u enough fits =
        let (c, publishes, _, _, _) = update_lem mqtt_laws u.telemetry fits in
        let (t, delivers, same, kept) = stream_lem fuel u.generator u.stream enough in
        let polling = stabilizer.Net.NetworkProcessor.update network u.processor in
        let changes = miniconf.update u.config settings in
        (
          record u { config = changes.0; processor = polling.0; stream = t; telemetry = c },
          changes.1,
          combined parts changes.2 (polled parts polling.1),
          rw (publishes, delivers) refl,
          combined_told _ _,
          refl,
          refl,
          same,
          kept,
        )
