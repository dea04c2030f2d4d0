-- ===== src/Program/Tests.antt =====
-- Runs of the main program.
mod RouteTests
use ndt_server.Common.{◌≡◌, refl, [], some, none, codes, true, false}
use ndt_server.Program.Ends.{IsTidy, main-IsTidy}
use ndt_server.Program.LameDuck.{
  State, set_lame_duck, sigterm, signalled, registered, first_signal, second_signal, Reach, start,
  later, IsOrderly, Reach-IsOrderly,
}
use ndt_server.Program.{Settings, main}

-- Three SIGTERMs, the last after the goroutine has ended.
abbrev three_sigterms : (s : State) × Reach s
unfolding set_lame_duck sigterm
three_sigterms = (
  _,
  later
      (later
        (later (later (later (later start (registered refl)) signalled) (first_signal refl refl))
          signalled)
        (second_signal refl refl))
      signalled,
)

crashed_at_last : three_sigterms.0.crashed ≡ true
unfolding set_lame_duck sigterm
crashed_at_last = refl

Reach-IsOrderly_example : IsOrderly three_sigterms.0
Reach-IsOrderly_example = Reach-IsOrderly three_sigterms.1

-- Without a certificate.
abbrev plain_settings : Settings
plain_settings = record {
  cert_file = [];
  key_file = [];
  token_required5 = false;
  token_required7 = false;
  args_from_env = none;
  new_verifier = some (codes "no keys");
  metrics_failure = [];
  listens = λ v. none;
}

main-IsTidy_example : IsTidy (main plain_settings)
main-IsTidy_example = main-IsTidy plain_settings
