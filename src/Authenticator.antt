-- ===== src/Authenticator.antt =====
-- The relay authenticator (services/relay-authenticator): Traefik asks it whether a request may
-- pass to a relay.
pub mod Path
pub mod Client
pub mod Handler
pub mod Main
