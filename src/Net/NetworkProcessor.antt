-- ===== src/Net/NetworkProcessor.antt =====
-- src/net/network_processor.rs. The PHY and the network stack are parameters.
pub mod Resets
use stabilizer.Prelude.{Bool, true, false}
use stabilizer.Prelude.Results.{Result, ok, err}
use stabilizer.Prelude.Effects.{Action}

pub data UpdateState : Type 0 where
  no_change updated : UpdateState

pub record Network : Type 1 where
  pub State : Type 0
  pub Fault : Type 0
  pub poll_link : State → State × Bool
  pub handle_link_reset : State → State
  pub poll : Action State Fault Bool

module _ (network : Network) where
  open network use {State, Fault}

  pub record NetworkProcessor : Type 0 where
    pub net : State
    pub network_was_reset : Bool

  unfoldable pub new : State → NetworkProcessor
  new net = record { net = net; network_was_reset = false }

  -- By the link and by whether the network was reset.
  linked : Bool → Bool → NetworkProcessor → NetworkProcessor
  linked true true s = record s { network_was_reset = false }
  linked false false s = record s {
    net = network.handle_link_reset s.net;
    network_was_reset = true;
  }
  linked _ _ s = s

  unfoldable pub handle_link : NetworkProcessor → NetworkProcessor
  unfolding linked
  handle_link s =
      let (net, link_up) = network.poll_link s.net in
      linked link_up s.network_was_reset (record s { net = net })

  update_state : Result Fault Bool → UpdateState
  update_state (ok true) = updated
  update_state (ok false) = no_change
  update_state (err e) = updated

  unfoldable pub update : NetworkProcessor → NetworkProcessor × UpdateState
  unfolding update_state
  update s = let (net, result) = network.poll s.net in (record s { net = net }, update_state result)
