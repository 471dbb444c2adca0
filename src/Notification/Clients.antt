-- ===== src/Notification/Clients.antt =====
-- internal/notification/hub.go: the map of the connected clients.
use ridesharing.Prelude.{◌≡◌, ◌≢◌, refl, none, some, [], ◌∷◌, List, arith}
use ridesharing.Models.{Uuid}
use ridesharing.Notification.{ClientId, Entry, get, put, delete}

pub get-put_self : (u : Uuid) (c : ClientId) (es : List Entry) → get u (put u c es) ≡ some c
unfolding get put
get-put_self u c [] = ground arith
get-put_self u c (e ∷ es) = ground (arith, get-put_self u c es)

pub get-put_other :
    (v u : Uuid) (c : ClientId) (es : List Entry) → v ≢ u → get v (put u c es) ≡ get v es
unfolding get put
get-put_other v u c [] ne = ground arith
get-put_other v u c (e ∷ es) ne = ground (arith, get-put_other v u c es ne)

pub get-delete_self : (u : Uuid) (es : List Entry) → get u (delete u es) ≡ none
unfolding get delete
get-delete_self u [] = refl
get-delete_self u (e ∷ es) = ground (arith, get-delete_self u es)

pub get-delete_other : (v u : Uuid) (es : List Entry) → v ≢ u → get v (delete u es) ≡ get v es
unfolding get delete
get-delete_other v u [] ne = refl
get-delete_other v u (e ∷ es) ne = ground (arith, get-delete_other v u es ne)
