-- ===== src/Cli/Arguments.antt =====
-- src/main.rs, `main`: the arguments that it declares for each subcommand.
use play_evmone.Base.{List, [], ◌∷◌}
use play_evmone.Clap
use play_evmone.Clap.{with_name, taking_value, mandatory}
use play_evmone.Cli.{Arg, Matches}
use play_evmone.Cli.Commands.{Subcommand}

-- The names: those of the options with a value, and "static".
pub data Name : Type 0 where
  option : Arg → Name
  static_flag : Name

abbrev arg_input_data : Clap.Arg Name
arg_input_data = taking_value (with_name (Name.option Arg.input_data))

abbrev arg_input_storage : Clap.Arg Name
arg_input_storage = taking_value (with_name (Name.option Arg.input_storage))

abbrev arg_output_storage : Clap.Arg Name
arg_output_storage = taking_value (with_name (Name.option Arg.output_storage))

abbrev arg_address : Clap.Arg Name
arg_address = mandatory (taking_value (with_name (Name.option Arg.address)))

abbrev arg_code : Clap.Arg Name
arg_code = mandatory (taking_value (with_name (Name.option Arg.code)))

-- The arguments of the subcommands that `main` gives to the application.
abbrev pub declared : Subcommand → List (Clap.Arg Name)
declared Subcommand.list = arg_input_storage ∷ []
declared Subcommand.remove = arg_input_storage ∷ arg_address ∷ []
declared Subcommand.show = arg_input_storage ∷ arg_address ∷ []
declared Subcommand.create =
    arg_code ∷ arg_address ∷ arg_input_data ∷ arg_input_storage ∷ arg_output_storage ∷ []
declared Subcommand.call =
    mandatory arg_address
    ∷ arg_input_data
    ∷ mandatory arg_input_storage
    ∷ arg_output_storage
    ∷ with_name Name.static_flag
    ∷ []
declared Subcommand.other = []

-- What the subcommands ask of the arguments that clap has matched.
abbrev pub matched : Clap.Matches Name → Matches
matched m = record {
  value_of = λ a. m.value_of (Name.option a);
  is_static = m.is_present Name.static_flag;
}
