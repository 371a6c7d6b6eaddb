-- ===== src/Thread/Examples.antt =====
-- A comment, a reply and a reply to the reply.
use cmoon.Base.{◌≡◌, refl, [], ◌∷◌}
use cmoon.Thread.{Comment}
use cmoon.Thread.Replies.{Board, replied, sent, run, IsThreaded, run-IsThreaded}

abbrev blank : Comment
blank = record { id = 0; pid = 0; zid = 0; sn = []; uname = []; content = []; intime = [] }

abbrev no_comments : Board
no_comments = record { stored = []; thread = record { items = []; num = 0; pid = 0; zid = 0 } }

run-IsThreaded_example :
    IsThreaded (run (sent blank ∷ replied 0 ∷ sent blank ∷ replied 1 ∷ sent blank ∷ []) no_comments)
run-IsThreaded_example =
    run-IsThreaded (sent blank ∷ replied 0 ∷ sent blank ∷ replied 1 ∷ sent blank ∷ []) no_comments
      (refl, refl)

-- The reply to the reply belongs to the thread of the first comment.
third_zid :
    (run
      (replied 1 ∷ sent blank ∷ [])
      (run (sent blank ∷ replied 0 ∷ sent blank ∷ []) no_comments)).thread.zid
    ≡ 1
unfolding run
third_zid = refl
