-- ===== src/Node/UserApi.antt =====
-- The GraphQL API of da-node/src/user_api. The engine juniper, which reads a query and calls these
-- resolvers, is not modelled. The user that the context holds is an argument.
pub mod Types
pub mod Context
pub mod Web
pub mod Mutation
pub mod Opening
pub mod Query
pub mod Loader
pub mod Content
pub mod Accounts
pub mod Access
pub mod Guards
pub mod Deletion
pub mod Refusals
pub mod Ensures
