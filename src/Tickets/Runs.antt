-- ===== src/Tickets/Runs.antt =====
-- Histories of a ticket system: its methods that change a ticket, in any order.
use photon_kernel_sil.Prelude.{String, Bool, List, [], ◌∷◌}
use photon_kernel_sil.Prelude.Dict.{Dict}
use photon_kernel_sil.Tickets.Types.{Priority, Category, PostMortem, System, Clock}
use photon_kernel_sil.Tickets.Desk.{create, create_from_event}
use photon_kernel_sil.Tickets.Flow.{
  assign, start_progress, resolve, close, reopen, escalate, add_comment, add_post_mortem,
}

pub data Operation : Type 0 where
  creates : Clock → String → String → Category → Priority → String → Dict String String → Operation
  receives : Clock → Dict String String → Operation
  assigns : Clock → String → String → String → String → Operation
  starts : Clock → String → String → String → Operation
  resolves : Clock → String → String → String → String → Operation
  closes : Clock → String → String → Operation
  reopens : Clock → String → String → String → String → Operation
  escalates : Clock → String → String → String → Operation
  comments : Clock → String → String → String → String → Bool → Operation
  reviews : Clock → String → PostMortem → Operation

unfoldable pub step : System → Operation → System
step s (creates clock title description category priority reporter event) =
    (create clock s title description category priority reporter event).0
step s (receives clock event) = (create_from_event clock s event).0
step s (assigns clock uuid id assignee comment) = (assign clock uuid s id assignee comment).0
step s (starts clock uuid id comment) = (start_progress clock uuid s id comment).0
step s (resolves clock uuid id resolution resolver) =
    (resolve clock uuid s id resolution resolver).0
step s (closes clock id closer) = (close clock s id closer).0
step s (reopens clock uuid id reason reopener) = (reopen clock uuid s id reason reopener).0
step s (escalates clock id reason escalator) = (escalate clock s id reason escalator).0
step s (comments clock uuid id author content internal) =
    (add_comment clock uuid s id author content internal).0
step s (reviews clock id p) = (add_post_mortem clock s id p).0

unfoldable pub run : System → List Operation → System
run s [] = s
run s (o ∷ os) = run (step s o) os
