-- ===== src/Lib.antt =====
-- The back end of a shop: a FastAPI application with a catalog, carts, orders with payment in
-- parts, and payments through a bank.
--
-- The parts of the program and how they interact. A request passes the middlewares, the
-- dependencies that open a database session and find its user, and a handler. The handlers call
-- the services, the services call the repositories and the clients of other systems, and the
-- repositories read and write the tables. An exception passes back through the transaction to the
-- handlers of exceptions, which make the response.
--
-- Which file models what:
--   Errors.antt: src/errors and the error classes of the services, as one data type with the
--     attributes of each class; Errors/Handling.antt: src/transport/error_handlers.py;
--     Errors/Handling/Middleware.antt: src/transport/middlewares/errors_handler_middleware.py.
--   Database.antt: src/database/models.py; a table is a list of records, one field for a column.
--   App.antt: the state of a request (`World`: the tables that its session sees, `request.session`,
--     the user, the identifiers drawn, the payments asked of the bank), and actions on it, which
--     may raise: what was written before a raise stays beside the exception.
--   Catalog/Checkout.antt: `verify_checkout_data` and `reserve_catalog_items` of
--     src/services/catalog/service.py, with src/database/repositories/catalog.py.
--   Catalog/Publications.antt and Catalog/Filters.antt: `get_publications` of the same service, and
--     `prepare_filter_groups` of src/services/catalog/utils.py; Catalog/Publishing.antt,
--     Catalog/Products.antt and Catalog/Sections.antt: its publications, its products with their
--     attachments, and its categories, filter groups and the availability of items.
--   Files.antt: src/services/file_manager; the state of a request has the stored objects beside it.
--   User.antt: src/services/user/service.py and src/database/repositories/user.py.
--   Order/Invoices.antt: src/services/order/utils.py; Order/Create.antt (with Order/Filing.antt for
--     the rows that it files), Order/Payment.antt and
--     Order/Read.antt: `create_order`, `update_payment_status` and `get_user_order` of
--     src/services/order/service.py.
--   Tinkoff.antt: src/integrations/tinkoff; Tinkoff/Token.antt: the token that signs its messages.
--   Clients/Cdek.antt: src/integrations/cdek/client.py, a client with the token that it keeps, the
--     requests that it sent and the readings of the clock; Clients/Cdek/Handlers.antt: its handlers;
--     Clients/Httpx.antt: the transport that logs, of src/integrations/integration_client_utils.py;
--     Clients/Trace.antt: the trace identifier, from the middleware to the requests that are sent.
--   Transport/Session.antt: src/transport/depends/db_session.py, for one request; Transport/Auth.antt:
--     src/transport/depends/auth.py and src/integrations/ory_kratos; Transport/Order.antt and
--     Transport/User.antt: the handlers of src/transport/handlers/client; Transport/Catalog.antt:
--     the handlers of the catalog, of clients and of the administration;
--     Transport/Notifications.antt: the handler of the bank's notifications; Transport/Logging.antt:
--     src/transport/middlewares/logging_middleware.py; Transport/Prepare.antt: a request of a client
--     from src/transport/middlewares/prepare_session_middleware.py to its handler, as src/bootstrap.py
--     puts these together, and the sessions that a browser can hold.
--   Journal.antt, Dict.antt and Sorting.antt: the log with Sentry beside it, Python's dictionaries
--     and its `sorted`, which several parts use.
-- A definition has the name of the function it models; a loop or a branch that has a name of its
-- own says above it which statement it is.
--
-- What other packages and services do is a parameter: the identifiers that `uuid4` draws, the
-- bank's answers, what SQLAlchemy makes of an assignment to a relationship, what pydantic makes of
-- values, the identity provider's answers, whether a commit fails, and what Sentry returns. Where
-- a theorem relies on one of them, it has a hypothesis that names the behaviour.
--
-- Numbers: identifiers and moments are natural numbers, which are only compared and shifted;
-- amounts and quantities are integers without a bound, as Python's are. Loops are recursion on the
-- lists they run over, so no fuel is needed. The order of the rows of a table is arbitrary: the
-- lists stand for every order in which the server may return them.
--
-- Floating point is a parameter where a size is computed. A moment is read from a clock where a
-- theorem is about time. Fuel occurs only in printing a number, with more fuel than it has digits.
--
-- Not modelled: the repository of src/database/repositories/crud.py and what base.py has beside
-- `create`, `read` and `read_all`, which nothing uses (these three are written out where they are
-- called, on the tables), connecting to the database, the cache and the storage, the sinks and the
-- format of the log, the settings and the start-up. Requests at the same time are not
-- interleaved; a reservation locks its rows. The column `updated_at` keeps its value: its `onupdate`
-- is applied by the ORM at the flush, after the functions that are modelled return. When a product is
-- merged, a filter on file that is merged takes the new list of products; the filters that a merged
-- group no longer lists would lose their group, which the database refuses at the commit.
pub mod Prelude
pub mod Errors
pub mod Database
pub mod Tinkoff
pub mod App
pub mod Catalog
pub mod Order
pub mod User
pub mod Transport
pub mod Clients
pub mod Journal
pub mod Files
pub mod Sorting
pub mod Dict
