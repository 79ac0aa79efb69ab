-- ===== src/Runs/Fcitx.antt =====
-- The theorems on fcitx calls, on the call `FocusIn` of a client.
use emskin.Prelude.{◌≡◌, ◌≢◌, refl, arith, some, [], codes, bytes_eq}
use emskin.Wire.Builder.{bump}
use emskin.Fcitx.{focus_in, create_input_context, classify, reply_frame}
use emskin.Fcitx.Allocate.{path_of, allocate-distinct, IsReply, reply_frame-IsReply}
use emskin.Runs.Demo.{demo_codec, focus_call}

focus_classified : classify demo_codec focus_call ≡ some (focus_in (codes "/ic/1"))
unfolding classify bytes_eq
focus_classified = refl

allocate-distinct_example : path_of 3 ≢ path_of 12
allocate-distinct_example = allocate-distinct 3 12 (omega arith) (omega arith)

reply_frame-IsReply_example :
    let (f, _, serial) = reply_frame demo_codec focus_call (create_input_context []) 1 0 in
    IsReply demo_codec focus_call f serial × (serial ≡ bump 0)
reply_frame-IsReply_example =
    reply_frame-IsReply demo_codec focus_call (create_input_context []) 1 0
