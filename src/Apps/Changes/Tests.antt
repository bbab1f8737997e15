-- ===== src/Apps/Changes/Tests.antt =====
-- Three sets over the terminal, which are then applied.
use stabilizer.Prelude.{ℕ, refl, [], inr, true, false}
use stabilizer.Settings.Tests.Console.{setting, serial, input, typed, typing, pop}
use stabilizer.Settings.Menu.{act_all, act, call, run, command_of}
use stabilizer.Settings.{handle_set, set_result}
use stabilizer.Settings.Runner.{poll, poll_loop, poll_ready, took, input_bytes}
use stabilizer.Net.Users.Tests.{parts, users}
use stabilizer.Apps.Changes.{Field, App, usb_round, apply, Reach, here, next, usb, settings_update}
use stabilizer.Apps.Changes.Applied.{IsCurrent, nothing, Reach-IsCurrent}

abbrev first_number : Field (ℕ × ℕ) ℕ
first_number = record { get = λ t. t.0; put = λ x t. (x, t.1) }

abbrev idle_app : App setting serial parts first_number input
idle_app = record {
  session = record typed { settings = (9, 4) };
  users = users;
  pending = false;
  applied = (9, 4);
}

-- The first number is that of the last byte.
abbrev set_app : App setting serial parts first_number input
set_app = record {
  session = record typed { platform_state = []; updated = true; settings = (3, 4) };
  users = users;
  pending = true;
  applied = (9, 4);
}

applied :
    Reach setting serial parts first_number input idle_app
      (apply setting serial parts first_number input set_app)
unfolding usb_round poll poll_loop poll_ready took input_bytes act_all act call run command_of
    handle_set set_result pop
applied = next {b = set_app} (usb 4 (λ p. p) refl) (next (settings_update refl) here)

Reach-IsCurrent_example :
    IsCurrent setting serial parts first_number input
      (apply setting serial parts first_number input set_app)
Reach-IsCurrent_example =
    Reach-IsCurrent setting serial parts first_number input idle_app
      (apply setting serial parts first_number input set_app) (λ b s t h. (typing b, h))
      (inr nothing) applied
