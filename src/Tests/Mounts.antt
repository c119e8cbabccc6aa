-- ===== src/Tests/Mounts.antt =====
-- Mounts that stack up: the world is the table of the paths that exist, with their mounts counted.
use csi_qsd.Base.{
  ℕ, zero, suc, ◌+◌, ◌-◌, ◌≡◌, refl, Bool, true, false, Option, none, some, arith, [], ◌<◌,
  if◌then◌else◌,
}
use csi_qsd.Go.Text.{Text, text, ◌==◌, ==_refl, eq_iff}
use csi_qsd.Go.Table.{Table, lookup, insert, delete, lookup-insert, lookup-delete}
use csi_qsd.Go.Exec.{is_ok}
use csi_qsd.Host.{Error, Kind, errorf, is_not_exist}
use csi_qsd.Driver.Csi.{Mounts, mount, NodePublishVolumeRequest, NodeUnpublishVolumeRequest}
use csi_qsd.Driver.Node.{node_publish_volume, node_unpublish_volume}
use csi_qsd.Driver.Mounted.{IsKernel, unpublish-publish_volume, node_publish_volume_twice}

abbrev Paths : Type 0
Paths = Table ℕ

abbrev enoent : Error
enoent = record { message = text "no such file or directory"; kind = Kind.not_exist }

abbrev mounts_at : Option ℕ → ℕ
mounts_at none = 0
mounts_at (some n) = n

abbrev is_missing : Option ℕ → Bool
is_missing none = true
is_missing (some n) = false

abbrev make : Text → Option ℕ → Paths → Paths
make path none w = insert path 0 w
make path (some n) w = w

abbrev take_off : Text → Option ℕ → Paths → Option Error × Paths
take_off target none w = (some enoent, w)
take_off target (some zero) w = (some (errorf (text "invalid argument")), w)
take_off target (some (suc n)) w = (none, insert target n w)

abbrev clear : Text → Option ℕ → Paths → Option Error × Paths
clear path none w = (none, w)
clear path (some zero) w = (none, delete path w)
clear path (some (suc n)) w = (some (errorf (text "device or resource busy")), w)

abbrev kernel : Mounts
kernel = record {
  World = Paths;
  mkdir_all = λ path w. (none, make path (lookup path w) w);
  bind_mount = λ source target w. (none, insert target (suc (mounts_at (lookup target w))) w);
  unmount = λ target w. take_off target (lookup target w) w;
  remove_all = λ path w. clear path (lookup path w) w;
}

abbrev stacked : Text → Paths → ℕ
stacked p w = mounts_at (lookup p w)

made : (path p : Text) (w : Paths) → stacked p (kernel.mkdir_all path w).1 ≡ stacked p w
made path p w = ground (arith, lookup-insert path p 0 w, eq_iff path p)

bound_at :
    (target p : Text) (w : Paths)
    → stacked p (insert target (suc (mounts_at (lookup target w))) w)
      ≡ (if target == p then stacked p w + 1 else stacked p w)
bound_at target p w =
    ground (arith, lookup-insert target p (suc (mounts_at (lookup target w))) w, eq_iff target p)

taken_off :
    (t p : Text) (o : Option ℕ) (w : Paths)
    → lookup t w ≡ o
    → (take_off t o w).0 ≡ none
    → (0 < mounts_at o)
      × (stacked p (take_off t o w).1 ≡ (if t == p then stacked p w - 1 else stacked p w))
taken_off t p none w h e = absurd (ground arith)
taken_off t p (some zero) w h e = absurd (ground arith)
taken_off t p (some (suc n)) w h e =
    (omega arith, ground (arith, h, lookup-insert t p n w, eq_iff t p))

not_taken_off :
    (t p : Text) (o : Option ℕ) (w : Paths) (e : Error)
    → (take_off t o w).0 ≡ some e
    → stacked p (take_off t o w).1 ≡ stacked p w
not_taken_off t p none w e h = refl
not_taken_off t p (some zero) w e h = refl
not_taken_off t p (some (suc n)) w e h = absurd (ground arith)

cleared :
    (t : Text) (o : Option ℕ) (w : Paths)
    → lookup t w ≡ o
    → (clear t o w).0 ≡ none
    → (mounts_at o ≡ 0) × (is_missing (lookup t (clear t o w).1) ≡ true)
cleared t none w h e = (refl, ground (arith, h))
cleared t (some zero) w h e = (refl, ground (arith, lookup-delete t t w, ==_refl t))
cleared t (some (suc n)) w h e = absurd (ground arith)

clear_keeps :
    (t p : Text) (o : Option ℕ) (w : Paths)
    → lookup t w ≡ o
    → stacked p (clear t o w).1 ≡ stacked p w
clear_keeps t p none w h = refl
clear_keeps t p (some zero) w h = ground (arith, h, lookup-delete t p w, eq_iff t p)
clear_keeps t p (some (suc n)) w h = refl

at_missing :
    (t : Text) (o : Option ℕ) (w : Paths)
    → lookup t w ≡ o
    → is_missing o ≡ true
    → (is_not_exist (take_off t o w).0 ≡ true)
      × (is_missing (lookup t (take_off t o w).1) ≡ true)
      × ((clear t o w).0 ≡ none)
at_missing t none w h e = (refl, ground (arith, h), refl)
at_missing t (some n) w h e = absurd (ground arith)

abbrev stacking : IsKernel kernel
stacking = record {
  stacked = stacked;
  missing = λ p w. is_missing (lookup p w);
  mkdir_keeps = made;
  bound = λ source target p w h. bound_at target p w;
  unbound = λ target p w. taken_off target p (lookup target w) w refl;
  unmount_keeps = λ target p w. not_taken_off target p (lookup target w) w;
  removed = λ path w. cleared path (lookup path w) w refl;
  remove_keeps = λ path p w. clear_keeps path p (lookup path w) w refl;
  absent = λ path w. at_missing path (lookup path w) w refl;
}

unfoldable calls : Unit {0}
unfolding text ◌==◌ lookup insert delete node_publish_volume node_unpublish_volume
calls = tt

abbrev asked : NodePublishVolumeRequest
asked = record {
  volume_id = text "test0";
  target_path = text "/target";
  volume_capability = some mount;
}

abbrev back : NodeUnpublishVolumeRequest
back = record { volume_id = text "test0"; target_path = text "/target" }

abbrev published : Paths
published = (node_publish_volume kernel asked []).1

abbrev restored : Paths
restored = (node_unpublish_volume kernel back published).1

unpublish-publish_volume_example :
    (stacked (text "/target") restored ≡ 0)
    × (is_missing (lookup (text "/target") restored) ≡ true)
    × (is_ok (node_unpublish_volume kernel back restored).0 ≡ true)
unfolding calls
unpublish-publish_volume_example =
    unpublish-publish_volume kernel stacking asked back [] refl (text "/target") refl refl

node_publish_volume_twice_example :
    is_ok (node_unpublish_volume kernel back (node_publish_volume kernel asked published).1).0
    ≡ false
unfolding calls
node_publish_volume_twice_example =
    node_publish_volume_twice kernel stacking asked back [] refl refl refl
