-- ===== src/Client/Root.antt =====
-- cmd/qsd-client/main.go, cmd/qsd-client/cmd/root.go and the init functions of cmd/qsd-client/cmd:
-- the command tree with its flags, and Execute. Parsing of the command line by cobra is a parameter.
use csi_qsd.Base.{Bool, true, false, Option, none, some, List, [], ◌∷◌, ℕ}
use csi_qsd.Go.Text.{Text, text}
use csi_qsd.Go.Number.{ℤ, pos}
use csi_qsd.Host.{Error}

-- the value of a flag that is not given
pub data Default : Type 0 where
  string : Text → Default
  int64 : ℤ → Default
  boolean : Bool → Default

pub record Flag : Type 0 where
  pub name : Text
  pub default : Default
  -- declared by PersistentFlags, and so for the commands below as well
  pub persistent : Bool

pub record Command : Type 0 where
  pub word : Text
  -- the word of the command that AddCommand puts it under
  pub parent : Option Text
  pub flags : List Flag
  -- the names that MarkFlagRequired is called with
  pub marked : List Text

abbrev pub root_command : Command
root_command = record {
  word = text "qsd-cli";
  parent = none;
  flags =
      record { name = text "port"; default = string (text "4444"); persistent = true }
      ∷ record { name = text "server"; default = string (text "localhost"); persistent = true }
      ∷ [];
  marked = [];
}

abbrev pub create_command : Command
create_command = record {
  word = text "create";
  parent = some (text "qsd-cli");
  flags =
      record { name = text "image"; default = string (text "image"); persistent = false }
      ∷ record { name = text "size"; default = int64 (pos 0); persistent = false }
      ∷ record { name = text "from"; default = string (text ""); persistent = false }
      ∷ [];
  marked = text "image" ∷ [];
}

abbrev pub delete_command : Command
delete_command = record {
  word = text "delete";
  parent = some (text "qsd-cli");
  flags = record { name = text "image"; default = string (text "image"); persistent = false } ∷ [];
  marked = text "image" ∷ [];
}

abbrev pub list_command : Command
list_command = record {
  word = text "list";
  parent = some (text "qsd-cli");
  flags = record { name = text "tree"; default = boolean false; persistent = false } ∷ [];
  marked = [];
}

abbrev pub snapshot_command : Command
snapshot_command = record {
  word = text "snapshot";
  parent = some (text "qsd-cli");
  flags =
      record { name = text "source"; default = string (text ""); persistent = true }
      ∷ record { name = text "name"; default = string (text ""); persistent = true }
      ∷ [];
  marked = text "name" ∷ text "source" ∷ [];
}

-- the flags of snapshotCmd serve both
abbrev pub snapshot_create_command : Command
snapshot_create_command = record {
  word = text "create";
  parent = some (text "snapshot");
  flags = [];
  marked = [];
}

abbrev pub snapshot_delete_command : Command
snapshot_delete_command = record {
  word = text "delete";
  parent = some (text "snapshot");
  flags = [];
  marked = [];
}

-- what becomes of the process: main returns, or os.Exit
pub data Exit : Type 0 where
  returned : Exit
  exited : ℕ → Exit

abbrev ending : {W : Type 0} → (Error → W → W) → Option Error × W → Exit × W
ending print (none, w) = (returned, w)
ending print (some e, w) = (exited 1, print e w)

-- Execute, over the Execute of cobra and fmt.Println
unfoldable pub execute : {W : Type 0} → (W → Option Error × W) → (Error → W → W) → W → Exit × W
execute run print w = ending print (run w)
