-- ===== src/Json/Order.antt =====
-- packages/core/src/policy.ts and evidence.ts: the canonical text does not depend on the order of keys.
use waysafe.Prelude.{◌≡◌, false, Text, text_eq}
use waysafe.Json.{Json, Fields, json_object, field}

-- The same fields, in another order, at any depth of objects.
pub data Reordered : Fields → Fields → Type 0 where
  same : {fs : Fields} → Reordered fs fs
  swap :
      {k l : Text} {v w : Json} {fs : Fields}
      → text_eq k l ≡ false
      → Reordered (field k v (field l w fs)) (field l w (field k v fs))
  under :
      {k : Text} {v : Json} {fs gs : Fields}
      → Reordered fs gs
      → Reordered (field k v fs) (field k v gs)
  inside :
      {k : Text} {fs gs hs : Fields}
      → Reordered fs gs
      → Reordered (field k (json_object fs) hs) (field k (json_object gs) hs)
  chain : {fs gs hs : Fields} → Reordered fs gs → Reordered gs hs → Reordered fs hs
