-- ===== src/Net/NetworkProcessor/Resets.antt =====
-- The network is reset once for each loss of the link.
use stabilizer.Prelude.{
  ℕ, suc, ◌+◌, ◌≡◌, Bool, true, false, not, refl, arith, ap, ◌∙◌, List, [], ◌∷◌,
}
use stabilizer.Net.NetworkProcessor.{Network, NetworkProcessor, linked, handle_link}

-- How often the link is lost, given whether it was up before.
abbrev pub losses : Bool → List Bool → ℕ
losses was_up [] = 0
losses was_up (true ∷ links) = losses true links
losses true (false ∷ links) = suc (losses false links)
losses false (false ∷ links) = losses false links

abbrev loss : Bool → Bool → ℕ
loss true false = 1
loss _ _ = 0

losses_step :
    (was_up up : Bool) (rest : List Bool)
    → losses was_up (up ∷ rest) ≡ loss was_up up + losses up rest
losses_step true true rest = omega arith
losses_step true false rest = omega arith
losses_step false true rest = omega arith
losses_step false false rest = omega arith

double_negation : (up : Bool) (rest : List Bool) → losses (not (not up)) rest ≡ losses up rest
double_negation true rest = refl
double_negation false rest = refl

-- A PHY that reports a script of links, and a stack that counts its resets.
pub record Scripted (network : Network) : Type 0 where
  pub links : network.State → List Bool
  pub resets : network.State → ℕ
  pub poll_lem :
      (up : Bool) (rest : List Bool) (s : network.State)
      → links s ≡ up ∷ rest
      → (t : network.State) × (network.poll_link s ≡ (t, up))
        × (links t ≡ rest)
        × (resets t ≡ resets s)
  pub reset_lem :
      (s : network.State)
      → (links (network.handle_link_reset s) ≡ links s)
        × (resets (network.handle_link_reset s) ≡ suc (resets s))

module _ (network : Network) (script : Scripted network) where
  open network use {State}

  -- One call of handle_link for each link of the script.
  abbrev pub handle_links : List Bool → NetworkProcessor network → NetworkProcessor network
  handle_links [] s = s
  handle_links (up ∷ rest) s = handle_links rest (handle_link network s)

  -- What `linked` makes of a state with a flag.
  linked_lem :
      (up was_reset : Bool) (net : State)
      → let t = linked network up was_reset (record { net = net; network_was_reset = was_reset }) in
        (script.links t.net ≡ script.links net)
        × (script.resets t.net ≡ script.resets net + loss (not was_reset) up)
        × (t.network_was_reset ≡ not up)
  unfolding linked
  linked_lem true true net = (refl, omega arith, refl)
  linked_lem true false net = (refl, omega arith, refl)
  linked_lem false true net = (refl, omega arith, refl)
  linked_lem false false net =
      let (same, counted) = script.reset_lem net in (same, omega (arith, counted), refl)

  step :
      (up : Bool) (rest : List Bool) (s : NetworkProcessor network)
      → script.links s.net ≡ up ∷ rest
      → let t = handle_link network s in
        (script.links t.net ≡ rest)
        × (script.resets t.net ≡ script.resets s.net + loss (not s.network_was_reset) up)
        × (t.network_was_reset ≡ not up)
  unfolding handle_link
  step up rest s h =
      let (net, e, links, resets) = script.poll_lem up rest s.net h in
      let (l, r, flag) = linked_lem up s.network_was_reset net in
      rw (e, handle_link)
        (l ∙ links, r ∙ ap (λ n. n + loss (not s.network_was_reset) up) resets, flag)

  -- Over a PHY that reports a script of links and a stack that counts its resets: as many calls of
  -- handle_link as the script has links reset the network once for each loss of the link, which is
  -- taken to be up before unless the network was reset.
  pub handle_links-losses :
      (l : List Bool) (s : NetworkProcessor network)
      → script.links s.net ≡ l
      → script.resets (handle_links l s).net
        ≡ script.resets s.net + losses (not s.network_was_reset) l
  handle_links-losses [] s h = omega arith
  handle_links-losses (up ∷ rest) s h =
      let (links, resets, flag) = step up rest s h in
      let later = handle_links-losses rest (handle_link network s) links in
      let again = ap (λ b. losses (not b) rest) flag in
      omega (
        arith,
        later,
        resets,
        again,
        double_negation up rest,
        losses_step (not s.network_was_reset) up rest,
      )
