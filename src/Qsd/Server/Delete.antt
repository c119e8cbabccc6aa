-- ===== src/Qsd/Server/Delete.antt =====
-- deleteImage, deleteNodeWithZeroReference, deleteIfEmptyDir and DeleteVolume.
use csi_qsd.Base.{
  ℕ, zero, suc, not, ◌&&◌, ◌||◌, Option, none, some, [], ◌∷◌, ◌++◌, if◌then◌else◌, length,
}
use csi_qsd.Go.Text.{Text, text, ◌==◌}
use csi_qsd.Go.Number.{is_below_one, is_positive, decrement}
use csi_qsd.Go.Exec.{diverge, pure, deref, from_option, ◌>>=◌, ◌>>◌, or_fail, attempt, result}
use csi_qsd.Host.{Host, errorf}
use csi_qsd.Qsd.Message.{Image, Response}
use csi_qsd.Qsd.Commands.Manager.{Manage, delete_volume}
use csi_qsd.Qsd.Server.State.{
  QcowImage, Method, Handler, failed, missing, join, images_dir, on_world, get_image,
  get_active_layer, put_image, drop_image, drop_active_layer, response_empty,
}

module _ (H : Host) where
  -- the `if` on BackingImageID in deleteImage
  unfoldable pub release_backing : Text → Method H Unit
  release_backing backing = if backing == text "" then pure tt else do
    found ← get_image H backing
    b ← from_option (errorf (text "Backing image " ++ (backing ++ text " not found"))) found
    put_image H backing (record b { ref_count = decrement b.ref_count })

  -- deleteImage
  unfoldable pub delete_image : Text → Method H Unit
  unfolding release_backing
  delete_image id = do
    found ← get_image H id
    i ← from_option (errorf (text "Image " ++ (id ++ text " not found"))) found
    on_world H (delete_volume H i.qsd_id)
    on_world H (attempt (H.remove i.file))
    release_backing i.backing_image_id
    drop_image H id

  -- the body of deleteNodeWithZeroReference for an image that is in the table; `again` is its call
  -- of itself
  unfoldable pub collect : (Text → Method H Unit) → Text → QcowImage → Method H Unit
  collect again id i =
      if is_positive i.ref_count || not (i.volume_ref == text "") then pure tt else (do
        delete_image id
        if not (i.backing_image_id == text "") then again i.backing_image_id else pure tt)

  -- the whole body
  unfoldable pub visit : (Text → Method H Unit) → Text → Method H Unit
  visit again id = do
    found ← get_image H id
    elim found [ none ↦ pure tt | some i ↦ collect again id i ]

  -- The recursion of deleteNodeWithZeroReference, on fuel.
  unfoldable pub delete_node : ℕ → Text → Method H Unit
  unfolding visit
  delete_node zero id = λ s. (diverge, s)
  delete_node (suc fuel) id = visit (delete_node fuel) id

  -- deleteNodeWithZeroReference: each call past the first deletes an image first, so there are no
  -- more calls than images and one
  unfoldable pub delete_node_with_zero_reference : Text → Method H Unit
  delete_node_with_zero_reference id s = delete_node (suc (length s.server.images)) id s

  -- deleteIfEmptyDir
  unfoldable pub delete_if_empty_dir : Text → Manage H Unit
  delete_if_empty_dir path = do
    files ← result (H.read_dir path)
    elim files [ [] ↦ attempt (H.remove path) | _ ∷ _ ↦ pure tt ]

  -- the branches on the reference count in DeleteVolume; the image that the variable `i` holds
  -- afterwards, or nil
  unfoldable pub delete_or_forget : Text → Text → QcowImage → Handler H (Option QcowImage)
  delete_or_forget volume id i =
      if is_below_one i.ref_count && id == volume
      then (do
        or_fail (delete_image id)
            (λ e. failed (text "Failed deleting image " ++ (volume ++ (text ":" ++ e.message))) e)
        pure (some i))
      else do
        found ← get_image H volume
        elim found [
          | none ↦ pure none
          | some v ↦ do put_image H volume (record v { volume_ref = text "" }); pure (some v)
        ]

  -- the end of DeleteVolume, behind the branches
  unfoldable pub clean_up : Image → Option QcowImage → Handler H Response
  clean_up image target = do
    drop_active_layer H image.id
    or_fail (on_world H (delete_if_empty_dir (join images_dir image.id))) (λ e.
        failed
          (text "Cannot delete image directory for the volume "
            ++ (image.id ++ (text ": " ++ e.message)))
          e)
    -- i.BackingImageID, at a nil pointer a panic
    i' ← deref target
    or_fail (delete_node_with_zero_reference i'.backing_image_id) (λ e.
        failed
          (text "Failed cleaning up the zero reference node "
            ++ (image.id ++ (text ": " ++ e.message)))
          e)
    pure response_empty

  -- Server.DeleteVolume
  unfoldable pub handle_delete_volume : Image → Handler H Response
  handle_delete_volume image = do
    layer ← get_active_layer H image.id
    id ←
        from_option
          (missing
            (text "Failed to delete the image " ++ (image.id ++ text ": active layer not found")))
          layer
    found ← get_image H id
    i ←
        from_option
          (missing (text "Failed to delete the image " ++ (image.id ++ text ": image not found")))
          found
    target ← delete_or_forget image.id id i
    clean_up image target
