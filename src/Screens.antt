-- ===== src/Screens.antt =====
-- The handlers of the mobile application's screens: mobile/src/components/TaskDeck.tsx and
-- mobile/src/screens/SettingsScreen.tsx, but for what is drawn.
pub mod Deck
pub mod Settings
pub mod Kept
