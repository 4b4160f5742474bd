-- ===== src/Streams/Conversation/Tests.antt =====
-- conversation.rs on small conversations.
use abyss_backend.Common.{[], ◌∷◌, none, some, ◌≡◌, refl}
use abyss_backend.Streams.Events.{Entry}
use abyss_backend.Streams.Conversation.{complete, partial, read, conversation_entries}

abbrev hello : Entry
hello = record { role = "user"; text = "hello"; call_id = none; item_id = none }

conversation_entries-complete :
    conversation_entries (some (record { entries = hello ∷ []; completeness = complete }))
    ≡ hello ∷ []
unfolding conversation_entries read
conversation_entries-complete = refl

conversation_entries-partial :
    conversation_entries (some (record { entries = hello ∷ []; completeness = partial })) ≡ []
unfolding conversation_entries read
conversation_entries-partial = refl
