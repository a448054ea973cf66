-- ===== src/Cli/Tests/Errors.antt =====
-- The theorem of `Cli/Errors` on "show" of an account that the storage of `Cli/Tests` does not have.
use play_evmone.Base.{◌≡◌, ◌↔◌, refl, none, Option, List, ℕ, false}
use play_evmone.Base.Outcome.{returns, err}
use play_evmone.Bytes.{from_ffi}
use play_evmone.Host.Tests.Machine.{addr, machine}
use play_evmone.Clap
use play_evmone.Clap.{Conforms}
use play_evmone.Cli.{CliError}
use play_evmone.Cli.Commands.{Subcommand, main}
use play_evmone.Cli.Arguments.{Name, declared, matched}
use play_evmone.Cli.Errors.{Refused, main-eq-err}
use play_evmone.Cli.Tests.{library, matches_at, storage, start}

abbrev show_args : Clap.Matches Name
show_args = record { value_of = λ n. value n; values_of = λ n. none; is_present = λ n. false }
  where
    value : Name → Option (List ℕ)
    value (Name.option a) = (matches_at storage none 7).value_of a
    value Name.static_flag = none

show_args-Conforms : Conforms (declared Subcommand.show) show_args
show_args-Conforms = (
  record { given = λ e. cc; defaulted = λ d e. cc; grouped = λ n values e f. cc },
  (record { given = λ e. (_, refl); defaulted = λ d e. cc; grouped = λ n values e f. cc }, tt),
)

main-eq-err_example :
    (main library machine 1 Subcommand.show (matched show_args) start
      ≡ returns (err (CliError.account_not_exists (from_ffi (addr 7)))))
    ↔ Refused library
        (matched show_args)
        start
        Subcommand.show
        (CliError.account_not_exists (from_ffi (addr 7)))
main-eq-err_example =
    main-eq-err library machine 1 show_args start Subcommand.show
      (CliError.account_not_exists (from_ffi (addr 7))) show_args-Conforms
