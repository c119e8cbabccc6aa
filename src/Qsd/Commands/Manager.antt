-- ===== src/Qsd/Commands/Manager.antt =====
-- The methods of VolumeManager and QMPMonitor, over any host. What is printed to the standard
-- output is left out.
use csi_qsd.Base.{
  ℕ, zero, suc, Bool, true, false, Option, none, some, List, [], ◌∷◌, ◌++◌, if◌then◌else◌,
}
use csi_qsd.Go.Text.{Text, text, ◌==◌, contains}
use csi_qsd.Go.Exec.{
  Exec, diverge, pure, raise, ◌>>=◌, ◌>>◌, or_fail, on_either, attempt, result, observe, check,
}
use csi_qsd.Host.{Host, Error, errorf, is_not_exist}
use csi_qsd.Qsd.Commands.Json.{
  nbd_server_start, nbd_server_add, job_complete, job_dismiss, blockdev_add_file, blockdev_del,
  block_export_add, block_export_del, blockdev_add_backed, blockdev_add_overlay, blockdev_snapshot,
  block_stream, block_commit,
}

-- isErrorBusyForBlockJob
unfoldable pub is_error_busy_for_block_job : Option Error → Bool
is_error_busy_for_block_job none = false
is_error_busy_for_block_job (some e) =
    if contains e.message (text "block device is in use by block job") then true else false

module _ (H : Host) where
  open H use {World}

  abbrev pub Manage : Type 0 → Type 0
  Manage A = Exec World Error A

  -- CreateNewUnixMonitor
  unfoldable pub create_new_unix_monitor : Text → Manage Unit
  create_new_unix_monitor socket = do
    or_fail (attempt (H.new_socket_monitor socket))
        (λ e. errorf (text "Fail in creating qmp connection: " ++ e.message))
    attempt H.connect

  -- NewVolumeManager: the connection is made in a goroutine, and the timer may win
  unfoldable pub new_volume_manager : Text → Manage Unit
  unfolding create_new_unix_monitor
  new_volume_manager socket w =
      if socket == text ""
      then raise (errorf (text "The socket cannot be empty")) w
      else let (res, w') = create_new_unix_monitor socket w in
        let (late, w'') = H.timer_fires w' in
        if late
        then raise (errorf (text "Timeout the communication with the qmp socket " ++ socket)) w''
        else (res, w'')

  -- QMPMonitor.Disconnect
  abbrev pub monitor_disconnect : Manage Unit
  monitor_disconnect w = pure tt (H.disconnect w)

  -- VolumeManager.Disconnect, by whether the monitor is there or nil
  abbrev pub manager_disconnect : Bool → Manage Unit
  manager_disconnect true = monitor_disconnect
  manager_disconnect false = pure tt

  -- QMPMonitor.Events
  abbrev pub monitor_events : Manage Unit
  monitor_events = attempt H.events

  -- ExecuteCommandRaw
  unfoldable pub execute_command_raw : Text → Manage Text
  execute_command_raw cmd = result (H.run cmd)

  -- ExecuteCommand
  unfoldable pub execute_command : Text → Manage Unit
  unfolding execute_command_raw
  execute_command cmd = do
    raw ← execute_command_raw cmd
    or_fail (check (H.unmarshal_status raw))
        (λ e. errorf (text "failed parsing result " ++ e.message))

  -- `for _, c := range cmds { if err := ExecuteCommand(c); err != nil { return err } }`
  unfoldable pub execute_commands : List Text → Manage Unit
  execute_commands [] = pure tt
  execute_commands (c ∷ cs) = do execute_command c; execute_commands cs

  -- CreateNbdServer
  unfoldable pub create_nbd_server : Text → Text → Manage Unit
  create_nbd_server exporter path =
      execute_commands (nbd_server_start path ∷ nbd_server_add exporter ∷ [])

  -- waitJobToComplete; the fuel bounds the events that are read
  unfoldable pub wait_events : ℕ → Text → Manage Unit
  wait_events zero id = λ w. (diverge, w)
  wait_events (suc fuel) id = do
    event ← observe H.next_event
    elim event [
      | none ↦ raise (errorf (text "Timeout in dismissing job " ++ id))
      | some name ↦
          let rest = wait_events fuel id in
          if name == text "BLOCK_JOB_COMPLETED" then pure tt else rest
    ]

  unfoldable pub wait_job_to_complete : ℕ → Text → Manage Unit
  unfolding wait_events
  wait_job_to_complete fuel id = do
    or_fail monitor_events (λ e. errorf (text "Failed creating monitor event " ++ e.message))
    wait_events fuel id

  -- completeJob and dismissJob
  unfoldable pub complete_job : ℕ → Text → Manage Unit
  complete_job fuel id = do execute_command (job_complete id); wait_job_to_complete fuel id

  unfoldable pub dismiss_job : ℕ → Text → Manage Unit
  dismiss_job fuel id = do execute_command (job_dismiss id); wait_job_to_complete fuel id

  -- qemu-img with the failure message of the snapshot calls
  unfoldable pub qemu_img_snapshot : Text → Text → Manage Unit
  qemu_img_snapshot image snapshot = do
    let cmd =
        text "qemu-img"
        ∷ text "create"
        ∷ text "-f"
        ∷ text "qcow2"
        ∷ text "-F"
        ∷ text "qcow2"
        ∷ text "-b"
        ∷ image
        ∷ snapshot
        ∷ []
    (out, e) ← observe (H.combined_output cmd)
    or_fail (check e) (λ e.
        errorf (
          H.command_string cmd
          ++ (text " failed output: " ++ (out ++ (text " err:" ++ e.message)))))

  -- the `if` of createImage
  unfoldable pub create_file : Text → Text → Text → Manage Unit
  create_file image size format = do
    (out, e) ← observe (
        H.combined_output
          (text "qemu-img" ∷ text "create" ∷ text "-f" ∷ format ∷ image ∷ size ∷ []))
    or_fail (check e) (λ e. errorf (H.errorf_extra out e))

  -- createImage
  unfoldable pub create_image : Text → Text → Text → Text → Manage Unit
  create_image image id size format = do
    e ← observe (H.stat image)
    if is_not_exist e then create_file image size format else pure tt
    execute_command (blockdev_add_file image id)

  -- CreateVolume
  unfoldable pub create_volume : Text → Text → Text → Manage Unit
  create_volume image id size = create_image image id size (text "qcow2")

  -- DeleteVolume
  unfoldable pub delete_volume : Text → Manage Unit
  delete_volume id = execute_command (blockdev_del id)

  -- ExposeVhostUser
  unfoldable pub expose_vhost_user : Text → Text → Manage Unit
  expose_vhost_user id vhost_sock = execute_command (block_export_add id vhost_sock)

  -- DeleteExporter
  unfoldable pub delete_exporter : Text → Manage Unit
  delete_exporter id = execute_command (block_export_del id)

  -- CreateSnapshotWithBackingNode
  unfoldable pub create_snapshot_with_backing_node : Text → Text → Text → Text → Text → Manage Unit
  create_snapshot_with_backing_node image_id snapshot_id image snapshot backing = do
    qemu_img_snapshot image snapshot
    execute_command (blockdev_add_backed snapshot backing snapshot_id)

  -- CreateSnapshot
  unfoldable pub create_snapshot : Text → Text → Text → Text → Manage Unit
  create_snapshot image_id snapshot_id image snapshot = do
    qemu_img_snapshot image snapshot
    execute_commands
        (blockdev_add_overlay snapshot snapshot_id ∷ blockdev_snapshot image_id snapshot_id ∷ [])

  -- StreamImage
  unfoldable pub stream_image : Text → Text → Manage Unit
  stream_image base overlay = execute_command (block_stream overlay (text "job0") base)

  -- CommitImage: an error of the command is dropped
  unfoldable pub commit_image : ℕ → Text → Text → Text → Manage Unit
  commit_image fuel node top base =
      on_either (execute_command (block_commit node (text "job0") top base)) (λ _. pure tt)
        (λ _. complete_job fuel (text "job0"))
