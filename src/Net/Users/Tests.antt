-- ===== src/Net/Users/Tests.antt =====
-- An MQTT client that plays a script of connections and refuses the metadata, and a device of which
-- the generator was given away.
use stabilizer.Prelude.{
  ℕ, ◌+◌, ◌≡◌, ◌≤◌, refl, arith, if◌then◌else◌, Bool, true, false, List, [], ◌∷◌, some, none,
}
use stabilizer.Prelude.Results.{ok}
use stabilizer.Net.DataStream.Tests.{counted, counted_laws, bounded, bounded_laws}
use stabilizer.Net.DataStream.System.Tests.{keeping, keeping_closes, done}
use stabilizer.Net.Telemetry.{Payload, telemetry, metadata, default_metadata, Mqtt, TelemetryClient}
use stabilizer.Net.Telemetry.Once.{MqttLaws, updates, losses, counted_metas, updates-Once}
use stabilizer.Net.Tests.{network}
use stabilizer.Net.Users.{Parts, NetworkUsers, update}
use stabilizer.Net.Users.Rounds.{RunsRound, update-RunsRound}

-- Whether the client is connected, what comes next, and what was published.
abbrev pub Client : Type 0
Client = Bool × List Bool × List (Payload ℕ)

abbrev next_link : Client → Client
next_link (up, [], log) = (up, [], log)
next_link (up, link ∷ links, log) = (link, links, log)

abbrev give : Payload ℕ → Client → Client × Bool
give metadata s = (s, false)
give default_metadata (up, links, log) = ((up, links, default_metadata ∷ log), true)
give (telemetry t) (up, links, log) = ((up, links, telemetry t ∷ log), true)

abbrev pub scripted : Mqtt ℕ
scripted = record {
  State = Client;
  poll = next_link;
  is_connected = λ s. s.0;
  can_publish = λ s. s.0;
  publish = λ topic p s. give p s;
}

pub polled_log : (s : Client) → (next_link s).2 ≡ s.2
polled_log (up, [], log) = refl
polled_log (up, link ∷ links, log) = refl

pub given_log :
    (topic : List ℕ) (p : Payload ℕ) (s : Client)
    → (give p s).0.2 ≡ (if (give p s).1 then p ∷ s.2 else s.2)
given_log topic metadata s = refl
given_log topic default_metadata s = refl
given_log topic (telemetry t) s = refl

abbrev pub scripted_laws : MqttLaws scripted
scripted_laws = record {
  log = λ s. s.2;
  log-poll = polled_log;
  log-publish = given_log;
  default_sent = λ topic s h k. refl;
}

-- "dt"; connected twice, lost, and connected again.
abbrev pub client : TelemetryClient scripted
client = record {
  client = (false, true ∷ true ∷ false ∷ true ∷ [], []);
  prefix = 100 ∷ 116 ∷ [];
  meta_published = false;
}

updates-Once_example :
    (d : TelemetryClient scripted) × (updates scripted_laws 4 client ≡ some d)
    × (counted_metas scripted_laws d
        ≤ counted_metas scripted_laws client + 1 + losses scripted_laws 4 client)
updates-Once_example = updates-Once scripted_laws 4 client (omega arith)

-- The settings are a number, which the client changes to seven.
abbrev pub parts : Parts ℕ ℕ
parts = record {
  pool = counted;
  queue = bounded;
  udp = keeping;
  network = network;
  mqtt = scripted;
  miniconf = record { State = Unit {0}; Fault = Unit {0}; update = λ c settings. (c, 7, ok true) };
}

abbrev pub users : NetworkUsers parts
users = record {
  config = tt;
  processor = record { net = ([], 0); network_was_reset = false };
  stream = done.stream;
  generator = none;
  telemetry = client;
}

update-RunsRound_example :
    RunsRound parts counted_laws bounded_laws keeping_closes scripted_laws 1 3 users
      (update parts 1 3 users)
update-RunsRound_example =
    update-RunsRound parts counted_laws bounded_laws keeping_closes scripted_laws 1 3 users
      (omega arith) (omega arith)
