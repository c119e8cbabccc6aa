-- ===== src/Client/Commands.antt =====
-- cmd/qsd-client/cmd: create, delete, snapshot create and delete, and list. A flag that cannot be read
-- ends the process (log.Fatalf), which is the panic of the model.
use csi_qsd.Base.{Bool, List, [], ◌∷◌, ◌⊎◌, inl, inr, ◌++◌, if◌then◌else◌}
use csi_qsd.Go.Text.{Text, text, ◌==◌}
use csi_qsd.Go.Number.{ℤ, pos}
use csi_qsd.Go.Exec.{Exec, pure, crash, ◌>>=◌, ◌>>◌, or_fail, attempt, result, observe, deferring}
use csi_qsd.Host.{Error, errorf}
use csi_qsd.Qsd.Message.{Response, Volume, ResponseListVolumes}
use csi_qsd.Driver.Csi.{Remote}
use csi_qsd.Client.Tree.{Printer, print_tree}

module _ (R : Remote) where
  open R use {World}

  abbrev pub Run : Type 0 → Type 0
  Run A = Exec World Error A

  -- cmd.Flags().GetString with its log.Fatalf
  abbrev pub flag : {A : Type 0} → Error ⊎ A → Run A
  flag (inl e) = crash
  flag (inr a) = pure a

  -- GetInt64("size"): an error ends the process only where there is no source, and leaves a zero
  abbrev pub size_flag : Text → Error ⊎ ℤ → Run ℤ
  size_flag source (inl e) = if source == text "" then crash else pure (pos 0)
  size_flag source (inr z) = pure z

  -- grpc.Dial to Host:Port, and the deferred Close
  abbrev pub connected : Text → Text → Run Unit → Run Unit
  connected host port body = do
    or_fail (attempt (R.dial (host ++ (text ":" ++ port))))
        (λ e. errorf (text "Failed to connect to the QSD server:" ++ e.message))
    deferring R.close body

  abbrev pub call : (World → (Error ⊎ Response) × World) → Text → Run Response
  call f message = or_fail (result f) (λ e. errorf (message ++ e.message))

  -- createCmd
  unfoldable pub create : Text → Text → Error ⊎ Text → Error ⊎ Text → Error ⊎ ℤ → Run Unit
  create host port image_flag from_flag size = do
    image ← flag image_flag
    source ← flag from_flag
    bytes ← size_flag source size
    connected host port (do
      call (R.create_volume (record { id = image; size = bytes; from_volume = source }))
          (text "Error for creating the volume ")
      call (R.expose_vhost_user (record { id = image; size = bytes; from_volume = source }))
          (text "Error for creating the exporter ")
      pure tt)

  -- deleteCmd
  unfoldable pub delete : Text → Text → Error ⊎ Text → Run Unit
  delete host port image_flag = do
    image ← flag image_flag
    connected host port (do
      call (R.delete_exporter (record { id = image; size = pos 0; from_volume = text "" }))
          (text "Error for creating the exporter ")
      call (R.delete_volume (record { id = image; size = pos 0; from_volume = text "" }))
          (text "Error for creating the volume ")
      pure tt)

  -- snapshotCreateCmd
  unfoldable pub snapshot_create : Text → Text → Error ⊎ Text → Error ⊎ Text → Run Unit
  snapshot_create host port name_flag source_flag = do
    name ← flag name_flag
    source ← flag source_flag
    connected host port (do
      call (R.create_snapshot (record { id = name; source_volume_id = source }))
          (text "Error for creating the volume ")
      pure tt)

  -- snapshotDeleteCmd
  unfoldable pub snapshot_delete : Text → Text → Error ⊎ Text → Error ⊎ Text → Run Unit
  snapshot_delete host port name_flag source_flag = do
    name ← flag name_flag
    source ← flag source_flag
    connected host port (do
      call (R.delete_snapshot (record { id = name; source_volume_id = source }))
          (text "Error for creating the volume ")
      pure tt)

  -- the output of a command, and the call of ListVolumes
  module _ (P : Printer) (list_volumes : World → (Error ⊎ ResponseListVolumes) × World)
      (println : Text → World → World) (show : Volume → Text) where
    -- the loop over the volumes
    unfoldable pub print_volumes : List Volume → Run Unit
    print_volumes [] = pure tt
    print_volumes (v ∷ vs) = do observe (λ w. (tt, println (show v) w)); print_volumes vs

    -- listCmd
    unfoldable pub list : Text → Text → Error ⊎ Bool → Run Unit
    unfolding print_volumes
    list host port tree_flag = connected host port (do
      r ←
          or_fail (result list_volumes)
            (λ e. errorf (text "Error for creating the volume " ++ e.message))
      tree ← flag tree_flag
      if tree then observe (λ w. (tt, println (print_tree P r) w)) else print_volumes r.volumes)
