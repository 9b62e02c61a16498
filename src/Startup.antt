-- ===== src/Startup.antt =====
-- What the `main` functions of the services share (samples/aa-flow-based-lending/src/*/src/main.py):
-- the arguments that argparse finds, the defaults, and what is started. The command line itself is
-- read by argparse; an option that is not given, and has no default, is None.
use fiu_data_governance.Prelude.{String, Bool, Option, none, some, string_eq}
use fiu_data_governance.Prelude.Dict.{Dict, lookup}
use fiu_data_governance.Prelude.Int.{ℤ}
use fiu_data_governance.Python.Errors.{Exn, Result, ok, err}
use fiu_data_governance.Python.Text.{parse_int}

pub record Arguments : Type 0 where
  -- the texts that are given, by the name of the option
  pub given : Dict String String
  pub verbose : Bool
  pub debug : Bool

-- A running service: the globals of its controller, the switches of its logger, and where it listens.
pub record Service (S : Type 0) : Type 0 where
  pub globals : S
  pub verbose : Bool
  pub debug : Bool
  pub host : String
  pub port : ℤ

abbrev or_default : Option String → String → String
or_default none default = default
or_default (some text) default = text

-- An option with a default.
abbrev pub option : Arguments → String → String → String
option args name default = or_default (lookup name args.given) default

abbrev read_port : Option String → ℤ → Result ℤ
read_port none default = ok default
read_port (some text) default = elim (parse_int text) [
  | none ↦ err (Exn.system_exit 2)
  | some port ↦ ok port
]

-- `--port`, with type=int: argparse ends the program if the text is no number.
abbrev pub port_of : Arguments → ℤ → Result ℤ
port_of args default = read_port (lookup "--port" args.given) default
