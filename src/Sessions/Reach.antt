-- ===== src/Sessions/Reach.antt =====
-- Requests on the session service, in any order, keep the tables and the blob store whole.
mod Steps
mod Batch
use pixeldive.Prelude.{string_eq, nat_eq, List, [], ◌∷◌}
use pixeldive.Sessions.Reach.Steps.{
  Whole, create-Whole, get-Whole, update-Whole, get_image-Whole, delete-Whole,
}
use pixeldive.Sessions.Reach.Batch.{add-Whole}
use pixeldive.Sessions.Model.{World, Service}
use pixeldive.Sessions.Requests.{
  Request, handle, handle_all, respond, creating, getting, updating, deleting, fetching, adding,
}
use pixeldive.Sessions.Integrity.{IsWhole}

module _ {Json Q : Type 0} (service : Service Q) where
  handle-Whole : (r : Request Json) (w : World Json Q) → Whole w → Whole (handle service r w)
  unfolding handle respond
  handle-Whole (creating sid now payload principal) w h =
      create-Whole service sid now payload principal w h
  handle-Whole (getting sid principal) w h = get-Whole service sid principal w h
  handle-Whole (updating now sid patch principal) w h =
      update-Whole service now sid patch principal w h
  handle-Whole (deleting now sid principal) w h = delete-Whole service now sid principal w h
  handle-Whole (fetching sid image principal) w h = get_image-Whole service sid image principal w h
  handle-Whole (adding bounded ids now sid uploads principal) w h =
      add-Whole service bounded ids now sid uploads principal w h

  -- No sequence of requests, by any callers and with any answers of the quota, leaves an image row
  -- whose session or whose stored blob is missing, when there was none before.
  pub handle_all-IsWhole :
      (requests : List (Request Json)) (w : World Json Q)
      → IsWhole w.sessions w.images w.blobs
      → IsWhole
          (handle_all service requests w).sessions
          (handle_all service requests w).images
          (handle_all service requests w).blobs
  unfolding handle_all
  handle_all-IsWhole [] w h = h
  handle_all-IsWhole (r ∷ requests) w h =
      handle_all-IsWhole requests (handle service r w) (handle-Whole r w h)
