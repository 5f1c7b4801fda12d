-- ===== src/Sessions/Requests.antt =====
-- The requests that change a session or read one by its id, and a sequence of them. The lists and the
-- stream of a stored image, which change no row and no blob, are in `Listing` and `Service`.
use pixeldive.Prelude.{string_eq, nat_eq, ℕ, Bool, Option, none, some, List, [], ◌∷◌}
use pixeldive.Errors.{Result, is_ok}
use pixeldive.Quota.Tenant.{Principal}
use pixeldive.Sessions.Model.{SessionCreate, SessionUpdate, World, Service}
use pixeldive.Sessions.Uploads.{Upload}
use pixeldive.Sessions.Ingest.{add_images_batch}
use pixeldive.Sessions.Service.{
  create_session, get_session, update_session, delete_session, get_image,
}

-- A request on the service, with the clock's reading and the new ids that it gets.
pub data Request (Json : Type 0) : Type 0 where
  creating : ℕ → ℕ → SessionCreate Json → Option Principal → Request Json
  getting : ℕ → Option Principal → Request Json
  updating : ℕ → ℕ → SessionUpdate Json → Option Principal → Request Json
  deleting : ℕ → ℕ → Option Principal → Request Json
  fetching : ℕ → ℕ → Option Principal → Request Json
  adding : Bool → (ℕ → ℕ) → ℕ → ℕ → List (Upload Json) → Option Principal → Request Json

module _ {Json : Type 0} where
  -- The session that a request names, and its caller.
  abbrev pub target : Request Json → Option (ℕ × Option Principal)
  target (creating sid now payload principal) = none
  target (getting sid principal) = some (sid, principal)
  target (updating now sid patch principal) = some (sid, principal)
  target (deleting now sid principal) = some (sid, principal)
  target (fetching sid image principal) = some (sid, principal)
  target (adding bounded ids now sid uploads principal) = some (sid, principal)

module _ {Json Q : Type 0} (service : Service Q) where
  -- Whether there was an answer, and the world after it.
  abbrev pub done : {A : Type 0} → Result A × World Json Q → Bool × World Json Q
  done (r, w) = (is_ok r, w)

  unfoldable pub respond : Request Json → World Json Q → Bool × World Json Q
  unfolding create_session get_session update_session delete_session get_image add_images_batch
  respond (creating sid now payload principal) w =
      done (create_session service sid now payload principal w)
  respond (getting sid principal) w = done (get_session service sid principal w)
  respond (updating now sid patch principal) w =
      done (update_session service now sid patch principal w)
  respond (deleting now sid principal) w = done (delete_session service now sid principal w)
  respond (fetching sid image principal) w = done (get_image service sid image principal w)
  respond (adding bounded ids now sid uploads principal) w =
      done (add_images_batch service bounded ids now sid uploads principal w)

  unfoldable pub handle : Request Json → World Json Q → World Json Q
  unfolding respond
  handle r w = (respond r w).1

  unfoldable pub handle_all : List (Request Json) → World Json Q → World Json Q
  unfolding handle
  handle_all [] w = w
  handle_all (r ∷ requests) w = handle_all requests (handle r w)
