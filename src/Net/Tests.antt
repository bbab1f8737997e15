-- ===== src/Net/Tests.antt =====
-- A PHY that plays a script of links, and a stack that counts its resets.
use stabilizer.Prelude.{ℕ, suc, ◌+◌, ◌≡◌, Bool, true, false, List, [], ◌∷◌, refl, ap}
use stabilizer.Prelude.Results.{ok}
use stabilizer.Net.NetworkProcessor.{Network, NetworkProcessor}
use stabilizer.Net.NetworkProcessor.Resets.{Scripted, losses, handle_links, handle_links-losses}

pub play : List Bool × ℕ → (List Bool × ℕ) × Bool
play ([], n) = (([], n), false)
play (up ∷ rest, n) = ((rest, n), up)

abbrev pub network : Network
network = record {
  State = List Bool × ℕ;
  Fault = Unit {0};
  poll_link = play;
  handle_link_reset = λ s. (s.0, suc s.1);
  poll = λ s. (s, ok false);
}

played :
    (up : Bool) (rest : List Bool) (s : List Bool × ℕ)
    → s.0 ≡ up ∷ rest
    → play s ≡ ((rest, s.1), up)
unfolding play
played up rest s h = ap (λ (l : List Bool). play (l, s.1)) h

abbrev script : Scripted network
script = record {
  links = λ s. s.0;
  resets = λ s. s.1;
  poll_lem = λ up rest s h. ((rest, s.1), played up rest s h, refl, refl);
  reset_lem = λ s. (refl, refl);
}

abbrev flaky : List Bool
flaky = false ∷ false ∷ true ∷ false ∷ []

abbrev start : NetworkProcessor network
start = record { net = (flaky, 0); network_was_reset = false }

handle_links-losses_example :
    (handle_links network script flaky start).net.1 ≡ 0 + losses true flaky
handle_links-losses_example = handle_links-losses network script flaky start refl
