-- ===== src/Links.antt =====
-- web/app.js, the handlers of the forms of a link. The forms are those of web/index.html:
-- `editLinkForm` in the dialogue `linkEditor`, and the form of the home view, which is called
-- `createLink` here.
pub mod Tags
pub mod FormPayload
pub mod Edit
pub mod Save
pub mod Upload
pub mod Editor
pub mod RoundTrip
pub mod Outcome
pub mod Import
