-- ===== src/HttpClient/Events.antt =====
-- What a request of pkg/httpclient/httpclient.go has done, read off its events.
use go_admin.Common.{ℕ, suc, List, [], ◌∷◌, ℤ}
use go_admin.HttpClient.Request.{Event, sent, waited, closed, closed_returned}

-- What a run has done: the requests that it sent, the waits, the bodies that it closed.
abbrev pub sends : List Event → ℕ
sends [] = 0
sends (sent spec h ∷ es) = suc (sends es)
sends (waited d ∷ es) = sends es
sends (closed n ∷ es) = sends es
sends (closed_returned ∷ es) = sends es

abbrev pub waits : List Event → List ℤ
waits [] = []
waits (sent spec h ∷ es) = waits es
waits (waited d ∷ es) = d ∷ waits es
waits (closed n ∷ es) = waits es
waits (closed_returned ∷ es) = waits es

abbrev pub closes : List Event → ℕ
closes [] = 0
closes (sent spec h ∷ es) = closes es
closes (waited d ∷ es) = closes es
closes (closed n ∷ es) = suc (closes es)
closes (closed_returned ∷ es) = suc (closes es)
