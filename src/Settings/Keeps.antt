-- ===== src/Settings/Keeps.antt =====
-- Get and store only read the settings.
use stabilizer.Prelude.{◌≡◌, refl, ap, sym, ◌∙◌, List, [], ◌∷◌, Option, none, some}
use mathlib.Core.Option.{some-injective, none-ne-some}
use stabilizer.Prelude.Results.{some_steps}
use stabilizer.Settings.{
  Bytes, Node, leaf, too_deep, Message, no_space, not_located, Tree, Platform, Session, Visit, say,
  tell, visit_node, visit_nodes, visit_all, visit_below, iter_root,
}

module _ (tree : Tree) (platform : Platform) where
  open platform use {State, Fault}

  -- The settings and the flag of an update are the same.
  abbrev pub Same : Session tree platform → Session tree platform → Type 0
  Same s t = (t.settings ≡ s.settings) × (t.updated ≡ s.updated)

  -- Unless it panics, the code leaves the settings and the flag.
  abbrev pub Leaves : Session tree platform → Option (Session tree platform) → Type 0
  Leaves s o = (t : Session tree platform) → o ≡ some t → Same s t

  abbrev pub LeavesIn :
      Session tree platform → Option (Session tree platform × tree.Settings) → Type 0
  LeavesIn s o = (t : Session tree platform) (d : tree.Settings) → o ≡ some (t, d) → Same s t

  pub Same-trans : (s t u : Session tree platform) → Same s t → Same t u → Same s u
  Same-trans s t u (a, b) (c, d) = (c ∙ a, d ∙ b)

  pub some-Same : (s t u : Session tree platform) → Same s t → some t ≡ some u → Same s u
  some-Same s t u (a, b) h =
      let e = some-injective _ _ h in
      (ap (λ x. x.settings) (sym e) ∙ a, ap (λ x. x.updated) (sym e) ∙ b)

  pub some-LeavesIn :
      (s t : Session tree platform) (d : tree.Settings) → Same s t → LeavesIn s (some (t, d))
  some-LeavesIn s t d same u d2 h =
      some-Same s t u same (ap some (ap (λ x. x.0) (some-injective _ _ h)))

  pub some_pair-Same :
      {A : Type 0} (s t u : Session tree platform) (a b : A)
      → Same s t
      → ◌≡◌ {A = Option (Session tree platform × A)} (some (t, a)) (some (u, b))
      → Same s u
  some_pair-Same s t u a b same h =
      some-Same s t u same (ap some (ap (λ x. x.0) (some-injective _ _ h)))

  pub none-LeavesIn : (s : Session tree platform) → LeavesIn s none
  none-LeavesIn s t d h = absurd (none-ne-some _ h)

  pub say-Leaves : (m : Message) (s : Session tree platform) → Leaves s (say tree platform m s)
  say-Leaves m s t h =
      let (p, e, k) = some_steps (platform.say m s.platform_state) _ t h in
      some-Same s (record s { platform_state = p }) t (refl, refl) k

  -- A message after a step that leaves the settings.
  pub tell-LeavesIn :
      (m : Message) (d : tree.Settings) (s t : Session tree platform)
      → Same s t
      → LeavesIn s (tell tree platform m d t)
  tell-LeavesIn m d s t same u d2 h =
      let (v, e, k) = some_steps (say tree platform m t) _ (u, d2) h in
      some-LeavesIn s v d (Same-trans s t v same (say-Leaves m t v e)) u d2 k

  abbrev pub LeavesAll : Visit tree platform → Type 0
  LeavesAll visit =
      (key : Bytes) (defaults : tree.Settings) (s : Session tree platform)
      → LeavesIn s (visit key defaults s)

  -- A visit that leaves the settings at each leaf leaves them over all nodes.
  pub visit_nodes-LeavesIn :
      (visit : Visit tree platform)
      → LeavesAll visit
      → (nodes : List Node) (defaults : tree.Settings) (s : Session tree platform)
      → LeavesIn s (visit_nodes tree platform visit nodes defaults s)
  unfolding visit_nodes visit_node
  visit_nodes-LeavesIn visit leaves [] defaults s u d h =
      some-LeavesIn s s defaults (refl, refl) u d h
  visit_nodes-LeavesIn visit leaves (leaf key ∷ nodes) defaults s u d h =
      let ((t, d1), e, k) = some_steps (visit key defaults s) _ (u, d) h in
      Same-trans s t u (leaves key defaults s t d1 e)
        (visit_nodes-LeavesIn visit leaves nodes d1 t u d k)
  visit_nodes-LeavesIn visit leaves (too_deep depth ∷ nodes) defaults s u d h =
      let ((t, d1), e, k) =
        some_steps (tell tree platform (no_space depth) defaults s) _ (u, d) h in
      Same-trans s t u (tell-LeavesIn (no_space depth) defaults s s (refl, refl) t d1 e)
        (visit_nodes-LeavesIn visit leaves nodes d1 t u d k)

  visit_all-Leaves :
      (visit : Visit tree platform)
      → LeavesAll visit
      → (nodes : List Node) (s : Session tree platform)
      → Leaves s (visit_all tree platform visit nodes s)
  unfolding visit_all
  visit_all-Leaves visit leaves nodes s u h =
      let ((t, d), e, k) =
        some_steps (visit_nodes tree platform visit nodes (tree.reset s.settings) s) _ u h in
      some-Same s t u (visit_nodes-LeavesIn visit leaves nodes (tree.reset s.settings) s t d e) k

  visit_below-Leaves :
      (visit : Visit tree platform)
      → LeavesAll visit
      → (key : Bytes) (nodes : Option (List Node)) (s : Session tree platform)
      → Leaves s (visit_below tree platform visit key nodes s)
  unfolding visit_below
  visit_below-Leaves visit leaves key none s = say-Leaves (not_located key) s
  visit_below-Leaves visit leaves key (some nodes) s = visit_all-Leaves visit leaves nodes s

  pub iter_root-Leaves :
      (visit : Visit tree platform)
      → LeavesAll visit
      → (key : Option Bytes) (s : Session tree platform)
      → Leaves s (iter_root tree platform key visit s)
  unfolding iter_root
  iter_root-Leaves visit leaves none s = visit_all-Leaves visit leaves tree.nodes s
  iter_root-Leaves visit leaves (some key) s = visit_below-Leaves visit leaves key (tree.root key) s
