-- ===== src/Examples/Ledger.antt =====
-- A task that is reported, completed and asked for.
use gpf.Prelude.{refl, none, [], ◌∷◌}
use gpf.Prelude.Lists.{All}
use gpf.Table.Listed.{listed}
use gpf.StringSet.{contains, insert, erase}
use gpf.Hub.Messages.{GetResultsReply, completed}
use gpf.Hub.Tasks.{save_queue_request, save_queue_result, settle, update_record}
use gpf.Hub.Queries.{get_results, gather}
use gpf.Hub.Dispatch.{dispatch_monitor_traffic}
use gpf.Hub.System.{System, create, at_time, here, next, monitored}
use gpf.Hub.Ledger.{Ledger}
use gpf.Hub.Ledger.Reachable.{Reach-Ledger}
use gpf.Hub.Ledger.Answers.{Grounded, get_results-Grounded}
use gpf.Examples.{surrounding, message}
use gpf.Examples.Network.{origin, now_text}

abbrev request : surrounding.Incoming
request = message "in" "t1"

abbrev result : surrounding.Incoming
result = message "out" "t1"

abbrev question : surrounding.Incoming
question = message "result_request" "results"

abbrev begun : System surrounding
unfolding origin
begun = (origin.0, (dispatch_monitor_traffic request (at_time surrounding 10 origin.1)).1)

abbrev ended : System surrounding
unfolding begun
ended = (origin.0, (dispatch_monitor_traffic result (at_time surrounding 20 begun.1)).1)

Reach-Ledger_example : Ledger surrounding (result ∷ request ∷ []) ended.1
unfolding ended begun origin create
Reach-Ledger_example = Reach-Ledger {to_iso_string = now_text} 1000 0 0 0 0 0 (
    next (next here (monitored origin.0 origin.1 10 request)) (monitored begun.0 begun.1 20 result))

abbrev reply : GetResultsReply
reply = record { results = record { msg_id = "t1"; status = completed; content = none } ∷ [] }

get_results-Grounded_example : All (Grounded surrounding (result ∷ request ∷ [])) reply.results
unfolding ended begun origin create dispatch_monitor_traffic save_queue_request save_queue_result
    settle update_record get_results gather contains insert erase listed
get_results-Grounded_example =
    get_results-Grounded {to_iso_string = now_text} 1000 0 0 0 0 0
      (next (next here (monitored origin.0 origin.1 10 request))
        (monitored begun.0 begun.1 20 result))
      question reply ("" ∷ []) refl
