-- ===== src/Host.antt =====
-- What the QSD server finds outside itself: the operating system's calls, the qemu-img command,
-- and the QMP monitor of github.com/digitalocean/go-qemu. Each call may change the world and may
-- fail. Nothing is assumed of them; a theorem that needs a fact states it as a hypothesis.
use csi_qsd.Base.{Bool, Option, ◌⊎◌, List}
use csi_qsd.Go.Text.{Text}

-- what os.IsExist and os.IsNotExist tell apart
pub data Kind : Type 0 where
  exist not_exist other : Kind

pub record Error : Type 0 where
  pub message : Text
  pub kind : Kind

-- fmt.Errorf: an error of no particular kind
abbrev pub errorf : Text → Error
errorf m = record { message = m; kind = Kind.other }

abbrev pub is_exist : Option Error → Bool
is_exist (Option.some e) = elim e.kind [ Kind.exist ↦ Bool.true | _ ↦ Bool.false ]
is_exist Option.none = Bool.false

abbrev pub is_not_exist : Option Error → Bool
is_not_exist (Option.some e) = elim e.kind [ Kind.not_exist ↦ Bool.true | _ ↦ Bool.false ]
is_not_exist Option.none = Bool.false

pub record Host : Type 1 where
  pub World : Type 0
  -- os.MkdirAll, os.Stat, os.Remove
  pub mkdir_all : Text → World → Option Error × World
  pub stat : Text → World → Option Error × World
  pub remove : Text → World → Option Error × World
  -- the names that ioutil.ReadDir lists
  pub read_dir : Text → World → (Error ⊎ List Text) × World
  -- exec.Command(args...).CombinedOutput(), and the print of the command
  pub combined_output : List Text → World → (Text × Option Error) × World
  pub command_string : List Text → Text
  -- how fmt prints a call whose arguments do not match its format
  pub errorf_extra : Text → Error → Text
  -- qmp.NewSocketMonitor and the monitor's Connect, Disconnect and Run
  pub new_socket_monitor : Text → World → Option Error × World
  pub connect : World → Option Error × World
  pub disconnect : World → World
  pub run : Text → World → (Error ⊎ Text) × World
  -- the monitor's Events; the name of the next event, or `none` where the timer fires first
  pub events : World → Option Error × World
  pub next_event : World → Option Text × World
  -- whether the timer of NewVolumeManager fires before the connection is there
  pub timer_fires : World → Bool × World
  -- whether json.Unmarshal takes the text for a status result
  pub unmarshal_status : Text → Option Error
