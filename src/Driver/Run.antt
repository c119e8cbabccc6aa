-- ===== src/Driver/Run.antt =====
-- Driver.Run and Driver.Stop of pkg/driver/driver.go: from the endpoint to the running gRPC server.
use csi_qsd.Base.{not, Option, none, some, ◌⊎◌, ◌++◌, if◌then◌else◌}
use csi_qsd.Go.Text.{Text, text, ◌==◌}
use csi_qsd.Go.Exec.{Exec, ◌>>=◌, ◌>>◌, or_fail, refuse, attempt, result, deref, observe}
use csi_qsd.Host.{Error, errorf, is_not_exist}
use csi_qsd.Driver.State.{Driver}

-- the parts of a parsed URL that Run reads
pub record Url : Type 0 where
  pub scheme : Text
  pub host : Text
  pub path : Text

-- url.Parse, path.Join, filepath.FromSlash, the operating system and the gRPC server
pub record Platform : Type 1 where
  pub World : Type 0
  pub parse : Text → Error ⊎ Url
  pub join : Text → Text → Text
  pub from_slash : Text → Text
  pub remove : Text → World → Option Error × World
  pub listen : Text → Text → World → Option Error × World
  pub serve : World → Option Error × World
  pub stop : World → World

-- what Run makes of the error of os.Remove
abbrev remove_failure : Option Error → Option Error
remove_failure none = none
remove_failure (some e) = if not (is_not_exist (some e)) then some e else none

module _ (P : Platform) where
  -- the address of the socket
  unfoldable pub address : Url → Text
  address u = if u.host == text "" then P.from_slash u.path else P.join u.host (P.from_slash u.path)

  -- Driver.Run
  unfoldable pub run : Driver → Exec P.World Error Unit
  unfolding address
  run d = do
    u ←
        or_fail (result (λ w. (P.parse d.endpoint, w)))
          (λ e. errorf (text "unable to parse address: " ++ e.message))
    refuse (not (u.scheme == text "unix"))
        (errorf (text "currently only unix domain sockets are supported, have: " ++ u.scheme))
    or_fail (attempt (λ w. (remove_failure (P.remove (address u) w).0, (P.remove (address u) w).1)))
        (λ e. errorf (
          text "failed to remove unix domain socket file "
          ++ (address u ++ (text ", error: " ++ e.message))))
    or_fail (attempt (P.listen u.scheme (address u)))
        (λ e. errorf (text "failed to listen: " ++ e.message))
    attempt P.serve

  -- Driver.Stop; the gRPC server is nil before Run has made it
  unfoldable pub stop : Option (Unit {0}) → Exec P.World Error Unit
  stop srv = do deref srv; observe (λ w. (tt, P.stop w))
